-- ===== src/ItemBag/SortRounds.antt =====
-- The rounds of the loop of ItemBag::sortItems: an item is tried at most twice.
use mathlib.Core.Path.{subst}
use mathlib.Core.Option.{some-injective}
use windnet_game.Prelude.{
  sym, get_elem?-set_self, lt-length, length-set, ◌⊎◌, ◌+ℤ◌, ℕ, zero, suc, ◌*◌, ◌≤◌, ◌<◌, ◌≡◌, ◌≢◌,
  refl, ap, ◌∙◌, ℤ, pos, leb_ℤ, ◌==ℤ◌, IsShort, Bool, true, false, not, ◌||◌, Option, none, some,
  List, [], ◌∷◌, length, get_elem?, set, arith, Bool-cases, Option-cases, inl, inr,
}
use windnet_game.Item.{Item, number, set_number, add_num}
use windnet_game.ItemBag.Numbers.{number-set_number}
use windnet_game.ItemBag.Sort.{
  Ending, no_fuel, Round, next, again, broken, onto_back, sort_round, sort_loop, back_of,
}

-- Every stack size is a `short`.
abbrev pub ShortStacks : List Item → Type 0
ShortStacks heap = (a : ℕ) (it : Item) → get_elem? heap a ≡ some it → IsShort it.template.stack_num

-- A place of a list that was written at one place has the value written or what it had.
set-parts :
    (heap : List Item) (a : ℕ) (v : Item) (b : ℕ) (w : Item)
    → get_elem? (set heap a v) b ≡ some w
    → (w ≡ v) ⊎ (get_elem? heap b ≡ some w)
set-parts [] a v b w h = inr h
set-parts (y ∷ heap) zero v zero w h = inl (sym (some-injective _ _ h))
set-parts (y ∷ heap) zero v (suc b) w h = inr h
set-parts (y ∷ heap) (suc a) v zero w h = inr h
set-parts (y ∷ heap) (suc a) v (suc b) w h = set-parts heap a v b w h

set-ShortStacks :
    (heap : List Item) (a : ℕ) (v : Item)
    → IsShort v.template.stack_num
    → ShortStacks heap
    → ShortStacks (set heap a v)
set-ShortStacks heap a v short shorts b w h = elim (set-parts heap a v b w h) [
  | inl e ↦ subst (λ x. IsShort x.template.stack_num) (sym e) short
  | inr old ↦ shorts b w old
]

-- What is known behind a round: stack sizes stay, and where the round asks to be repeated the
-- vector's back is full from then on.
abbrev After : List (Option ℕ) → Round → Type 0
After built (next heap' built') = ShortStacks heap'
After built (again heap') =
    ShortStacks heap'
    × (b : ℕ) × (back : Item) × (back_of built ≡ some (some b))
    × (get_elem? heap' b ≡ some back)
    × (leb_ℤ back.template.stack_num (number back) ≡ true)
After built broken = Unit {0}

full_size : (z : ℤ) → leb_ℤ z z ≡ true
full_size z = ground arith

poured :
    (heap : List Item) (a b : ℕ) (it back : Item) (built : List (Option ℕ)) (x : ℤ)
    → get_elem? heap a ≡ some it
    → get_elem? heap b ≡ some back
    → ShortStacks heap
    → After
        (some b ∷ built)
        (again (set (set heap a (add_num x it)) b (set_number back.template.stack_num back)))
unfolding add_num
poured heap a b it back built x at_a at_b shorts =
    let heap₁ = set heap a (add_num x it) in
    let full = set_number back.template.stack_num back in
    (
      set-ShortStacks heap₁ b full (shorts b back at_b)
          (set-ShortStacks heap a (add_num x it) (shorts a it at_a) shorts),
      b,
      full,
      refl,
      get_elem?-set_self heap₁ b full (
          subst (λ n. b < n) (sym (length-set heap a (add_num x it))) (lt-length heap b back at_b)),
      subst (λ z. leb_ℤ back.template.stack_num z ≡ true)
          (sym (number-set_number back back.template.stack_num (shorts b back at_b)))
          (full_size back.template.stack_num),
    )

onto_back-After :
    (heap : List Item) (built : List (Option ℕ)) (a : ℕ) (it : Item)
    → get_elem? heap a ≡ some it
    → ShortStacks heap
    → After built (onto_back heap built a it (back_of built))
unfolding onto_back add_num
onto_back-After heap [] a it at_a shorts = tt
onto_back-After heap (none ∷ built) a it at_a shorts = tt
onto_back-After heap (some b ∷ built) a it at_a shorts = elim (Option-cases (get_elem? heap b)) [
  | inl null ↦ rw (onto_back, null) tt
  | inr (back, at_b) ↦
      elim (Bool-cases
        (not (it.item_id ==ℤ back.item_id) || leb_ℤ back.template.stack_num (number back))) [
          | inl e ↦ rw (onto_back, at_b) (rw e shorts)
          | inr e ↦ elim (Bool-cases (leb_ℤ (number back +ℤ number it) back.template.stack_num)) [
            | inl fits ↦
                let filled = add_num (number it) back in
                rw (onto_back, at_b)
                  (rw (e, fits)
                    (set-ShortStacks (set heap b filled) a (set_number (pos 0) it)
                      (shorts a it at_a)
                      (set-ShortStacks heap b filled (shorts b back at_b) shorts)))
            | inr over ↦
                rw (onto_back, at_b)
                  (rw (e, over) (poured heap a b it back built _ at_a at_b shorts))
          ]
        ]
]

sort_round-After :
    (heap : List Item) (built : List (Option ℕ)) (a : ℕ)
    → ShortStacks heap
    → After built (sort_round heap built a)
unfolding sort_round
sort_round-After heap built a shorts = elim (Option-cases (get_elem? heap a)) [
  | inl null ↦ rw (sort_round, null) tt
  | inr (it, there) ↦ elim (Bool-cases (leb_ℤ (number it) (pos 0))) [
    | inl e ↦ rw (sort_round, there) (rw e shorts)
    | inr e ↦
        elim (Bool-cases
          (leb_ℤ it.template.stack_num (pos 1) || leb_ℤ it.template.stack_num (number it))) [
            | inl k ↦ rw (sort_round, there) (rw (e, k) shorts)
            | inr k ↦
                rw (sort_round, there) (rw (e, k) (onto_back-After heap built a it there shorts))
          ]
  ]
]

-- A round whose vector has a full back is not repeated.
abbrev Onward : Round → Type 0
Onward (again heap') = true ≡ false
Onward _ = Unit {0}

full_back-Onward :
    (heap : List Item) (built : List (Option ℕ)) (a b : ℕ) (back : Item)
    → back_of built ≡ some (some b)
    → get_elem? heap b ≡ some back
    → leb_ℤ back.template.stack_num (number back) ≡ true
    → Onward (sort_round heap built a)
unfolding sort_round onto_back
full_back-Onward heap built a b back top there full = elim (Option-cases (get_elem? heap a)) [
  | inl null ↦ rw (sort_round, null) tt
  | inr (it, at_a) ↦ elim (Bool-cases (leb_ℤ (number it) (pos 0))) [
    | inl e ↦ rw (sort_round, at_a) (rw e tt)
    | inr e ↦
        elim (Bool-cases
          (leb_ℤ it.template.stack_num (pos 1) || leb_ℤ it.template.stack_num (number it))) [
            | inl k ↦ rw (sort_round, at_a) (rw (e, k) tt)
            | inr k ↦
                rw (sort_round, at_a)
                  (rw (e, k, top, onto_back)
                    (rw (there) (
                      rw full (elim (Bool-cases (not (it.item_id ==ℤ back.item_id))) [
                        | inl d ↦ rw d tt
                        | inr d ↦ rw d tt
                      ]))))
          ]
  ]
]

-- The loop from a heap of such stacks.
abbrev is_end : Ending → Bool
is_end no_fuel = false
is_end _ = true

loop_by :
    (fuel : ℕ) (heap : List Item) (built : List (Option ℕ)) (a : ℕ) (rest : List ℕ) (r : Round)
    → sort_round heap built a ≡ r
    → ((heap' : List Item) (built' : List (Option ℕ))
        → r ≡ next heap' built'
        → is_end (sort_loop fuel heap' built' rest) ≡ true)
    → ((heap' : List Item)
        → r ≡ again heap'
        → is_end (sort_loop fuel heap' built (a ∷ rest)) ≡ true)
    → is_end (sort_loop (suc fuel) heap built (a ∷ rest)) ≡ true
unfolding sort_loop
loop_by fuel heap built a rest (next heap' built') e on back =
    rw (sort_loop, e) (on heap' built' refl)
loop_by fuel heap built a rest (again heap') e on back = rw (sort_loop, e) (back heap' refl)
loop_by fuel heap built a rest broken e on back = rw (sort_loop, e) refl

loop_ends :
    (rest : List ℕ) (fuel : ℕ) (heap : List Item) (built : List (Option ℕ))
    → ShortStacks heap
    → 2 * length rest ≤ fuel
    → is_end (sort_loop fuel heap built rest) ≡ true
unfolding sort_loop
loop_ends [] zero heap built shorts h = refl
loop_ends [] (suc fuel) heap built shorts h = refl
loop_ends (a ∷ rest) zero heap built shorts h = absurd (omega arith)
loop_ends (a ∷ rest) (suc zero) heap built shorts h = absurd (omega arith)
loop_ends (a ∷ rest) (suc (suc fuel)) heap built shorts h =
    loop_by (suc fuel) heap built a rest (sort_round heap built a) refl
      (λ heap₁ built₁ e.
        loop_ends rest (suc fuel) heap₁ built₁
          (subst (After built) e (sort_round-After heap built a shorts)) (omega arith))
      (λ heap₁ e.
        let (shorts₁, b, back, top, there, full) =
          subst (After built) e (sort_round-After heap built a shorts) in
        loop_by fuel heap₁ built a rest (sort_round heap₁ built a) refl
          (λ heap₂ built₂ e₂.
            loop_ends rest fuel heap₂ built₂
              (subst (After built) e₂ (sort_round-After heap₁ built a shorts₁)) (omega arith))
          (λ heap₂ e₂.
            let no : true ≡ false =
              subst Onward e₂ (full_back-Onward heap₁ built a b back top there full) in
            absurd cc))

-- From a heap whose stack sizes are `short`s, the loop of sortItems never runs out of its rounds if
-- it is given two for each item, whatever the vector built so far.
pub sort_rounds :
    (rest : List ℕ) (fuel : ℕ) (heap : List Item) (built : List (Option ℕ))
    → ShortStacks heap
    → 2 * length rest ≤ fuel
    → sort_loop fuel heap built rest ≢ no_fuel
sort_rounds rest fuel heap built shorts h e =
    let no : false ≡ true = ap is_end (sym e) ∙ loop_ends rest fuel heap built shorts h in absurd cc
