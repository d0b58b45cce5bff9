-- ===== src/ItemBag/Swapping.antt =====
-- ItemBag::moveItem and the bag's invariant: two places are swapped.
use mathlib.Core.Option.{some-injective, some-ne-none}
use mathlib.Core.Path.{subst}
use windnet_game.Prelude.{
  ℕ, zero, suc, ◌^◌, ◌≤◌, ◌<◌, ◌≡◌, ◌≢◌, refl, sym, ap, ◌∙◌, inl, inr, pos, Option, none, some,
  List, [], ◌∷◌, length, get_elem?, get_elem?-set_ne, get_elem?-set-some, lt-length, set, arith,
}
use windnet_game.Prelude.Fault.{◌>>=◌}
use windnet_game.Prelude.Places.{get_elem?-set}
use windnet_game.Item.{Item, index, set_index, print_gems}
use windnet_game.ItemBag.{Store, get, modify, move_swap}
use windnet_game.ItemBag.Numbers.{index-set_index}
use windnet_game.ItemBag.Indexed.{IsPlaced, IsIndexed, one_place, positive}
use windnet_game.ItemBag.Keeping.{
  IsAlike, IsKept, IsKept-trans, IsKept-IsIndexed, write-IsKept, flush-IsKept,
}

set_same : (xs : List (Option ℕ)) (i : ℕ) (v : Option ℕ) → get_elem? xs i ≡ some v → set xs i v ≡ xs
set_same [] i v e = refl
set_same (x ∷ xs) zero v e = ap (λ t. t ∷ xs) (sym (some-injective _ _ e))
set_same (x ∷ xs) (suc i) v e = ap (◌∷◌ x) (set_same xs i v e)

module _ (s : Store) (a i j : ℕ) (x : Item) (v : IsIndexed s) (at_a : get_elem? s.heap a ≡ some x)
    (here : get_elem? s.items i ≡ some (some a)) (low : 1 ≤ j) (inside : j < length s.items)
    (small : length s.items < 2 ^ 15) where
  -- The vector afterwards, with `to` at the old place.
  swapped : Option ℕ → List (Option ℕ)
  swapped to = set (set s.items i to) j (some a)

  swapped-low : (to : Option ℕ) → get_elem? (swapped to) 0 ≡ some none
  unfolding swapped
  swapped-low to =
      get_elem?-set_ne (set s.items i to) j 0 (some a) (λ e. absurd (omega arith))
      ∙ get_elem?-set_ne s.items i 0 to (λ e. absurd (omega (arith, positive v i a here)))
      ∙ v.low

  -- The item that moves.
  moved : Item
  moved = set_index (pos j) x

  -- A store with these places, where the heap is known for the items that move.
  swapped-IsIndexed :
      (to : Option ℕ) (u : Store)
      → u.items ≡ swapped to
      → u.item_map ≡ s.item_map
      → IsPlaced u j a
      → ((b : ℕ) → to ≡ some b → i ≢ j → IsPlaced u i b)
      → ((c : ℕ) → c ≢ a → to ≢ some c → get_elem? u.heap c ≡ get_elem? s.heap c)
      → ((b : ℕ) → to ≡ some b → get_elem? s.items j ≡ some (some b))
      → IsIndexed u
  unfolding swapped get
  swapped-IsIndexed to u items item_map new back others was = record {
    low = ap (λ t. get_elem? t 0) items ∙ swapped-low to;
    placed = λ k c e.
        elim (get_elem?-set (set s.items i to) j (some a) k (some c)
          (ap (λ t. get_elem? t k) (sym items) ∙ e)) [
            | inl (at_j, same) ↦
                subst (λ n. IsPlaced u n c) (sym at_j)
                  (subst (λ n. IsPlaced u j n) (sym (some-injective _ _ same)) new)
            | inr (off_j, e') ↦ elim (get_elem?-set s.items i to k (some c) e') [
              | inl (at_i, same) ↦
                  subst (λ n. IsPlaced u n c) (sym at_i) (back c (sym same) (λ d. off_j (at_i ∙ d)))
              | inr (off_i, old) ↦
                  let p = v.placed k c old in
                  record {
                    item = p.item;
                    there =
                        others c
                          (λ d.
                            off_i (one_place v k i c old (here ∙ ap (λ n. some (some n)) (sym d))))
                          (λ d. off_j (one_place v k j c old (was c d)))
                        ∙ p.there;
                    at = p.at;
                    mapped =
                        ap (λ m. get (record s { item_map = m }) p.item.global_id) item_map
                        ∙ p.mapped;
                  }
            ]
          ];
  }

  mine : IsPlaced s i a
  mine = v.placed i a here

  mine-same : mine.item ≡ x
  unfolding mine
  mine-same = some-injective _ _ (sym (v.placed i a here).there ∙ at_a)

  at_i : index x ≡ pos i
  unfolding mine mine-same
  at_i = ap index (sym mine-same) ∙ mine.at

  known : get s x.global_id ≡ some a
  unfolding mine mine-same
  known = ap (λ it. get s it.global_id) (sym mine-same) ∙ mine.mapped

  -- The item moves to an empty place.
  pub swap_empty-IsIndexed :
      (text : List ℕ)
      → print_gems x.gems ≡ some text
      → get_elem? s.items j ≡ some none
      → (s' : Store) × (move_swap a none (index x) (pos j) s ≡ some s') × IsIndexed s'
  unfolding move_swap modify swapped moved get
  swap_empty-IsIndexed text printed empty =
      let u = record s { heap = set s.heap a moved; items = swapped none } in
      let at_a' : get_elem? u.heap a ≡ some moved = get_elem?-set-some s.heap a x moved at_a in
      let (s', e, k) = flush-IsKept u a moved text at_a' printed in
      let new : IsPlaced u j a = record {
        item = moved;
        there = at_a';
        at = index-set_index x (pos j) (omega arith);
        mapped = known;
      } in
      let w : IsIndexed u =
        swapped-IsIndexed none u refl refl new (λ b d. absurd (some-ne-none b (sym d)))
          (λ c other _. get_elem?-set_ne s.heap a c moved (λ d. other (sym d)))
          (λ b d. absurd (some-ne-none b (sym d))) in
      (s', rw (move_swap, at_i, here, ◌>>=◌, modify, at_a, ◌>>=◌) e, IsKept-IsIndexed k w)

  -- The item changes places with another one.
  pub swap_other-IsIndexed :
      (b : ℕ) (y : Item) (text text' : List ℕ)
      → i ≢ j
      → get_elem? s.items j ≡ some (some b)
      → get_elem? s.heap b ≡ some y
      → print_gems x.gems ≡ some text
      → print_gems y.gems ≡ some text'
      → (s' : Store) × (move_swap a (some b) (index x) (pos j) s ≡ some s') × IsIndexed s'
  unfolding move_swap modify swapped moved get
  swap_other-IsIndexed b y text text' apart there at_b printed printed' =
      let moved' = set_index (pos i) y in
      let u = record s { heap = set (set s.heap a moved) b moved'; items = swapped (some b) } in
      let differ : a ≢ b =
        λ d. apart (one_place v i j a here (there ∙ ap (λ n. some (some n)) (sym d))) in
      let at_b₁ : get_elem? (set s.heap a moved) b ≡ some y =
        get_elem?-set_ne s.heap a b moved differ ∙ at_b in
      let at_b' : get_elem? u.heap b ≡ some moved' =
        get_elem?-set-some (set s.heap a moved) b y moved' at_b₁ in
      let at_a' : get_elem? u.heap a ≡ some moved =
        get_elem?-set_ne (set s.heap a moved) b a moved' (λ d. differ (sym d))
        ∙ get_elem?-set-some s.heap a x moved at_a in
      let yours = v.placed j b there in
      let same : yours.item ≡ y = some-injective _ _ (sym yours.there ∙ at_b) in
      let (t, e, k) = flush-IsKept u b moved' text' at_b' printed' in
      let (x', at_a'', like) = k.alike a moved at_a' in
      let (s', e', k') = flush-IsKept t a x' text at_a'' (ap print_gems like.same_gems ∙ printed) in
      let new : IsPlaced u j a = record {
        item = moved;
        there = at_a';
        at = index-set_index x (pos j) (omega arith);
        mapped = known;
      } in
      let back : IsPlaced u i b = record {
        item = moved';
        there = at_b';
        at = index-set_index y (pos i) (omega (arith, lt-length s.items i (some a) here));
        mapped = ap (λ it. get s it.global_id) (sym same) ∙ yours.mapped;
      } in
      let w : IsIndexed u =
        swapped-IsIndexed (some b) u refl refl new
          (λ c d _. subst (λ n. IsPlaced u i n) (some-injective _ _ d) back)
          (λ c other other'.
            get_elem?-set_ne (set s.heap a moved) b c moved' (λ d. other' (ap some d))
            ∙ get_elem?-set_ne s.heap a c moved (λ d. other (sym d)))
          (λ c d. there ∙ ap some d) in
      (
        s',
        rw (move_swap, at_i, here, ◌>>=◌, modify, at_a, ◌>>=◌, at_b₁, e) e',
        IsKept-IsIndexed (IsKept-trans k k') w,
      )

set_index-IsAlike :
    (it : Item) (i : ℕ) → i < 2 ^ 15 → index it ≡ pos i → IsAlike it (set_index (pos i) it)
set_index-IsAlike it i small e = record {
  same_index = index-set_index it (pos i) (omega arith) ∙ sym e;
  same_id = refl;
  same_gems = refl;
}

-- The item changes places with itself.
pub swap_self-IsIndexed :
    (s : Store) (a i : ℕ) (x : Item) (text : List ℕ)
    → IsIndexed s
    → get_elem? s.heap a ≡ some x
    → get_elem? s.items i ≡ some (some a)
    → length s.items < 2 ^ 15
    → print_gems x.gems ≡ some text
    → (s' : Store) × (move_swap a (some a) (index x) (pos i) s ≡ some s') × IsIndexed s'
unfolding move_swap modify
swap_self-IsIndexed s a i x text v at_a here small printed =
    let mine = v.placed i a here in
    let at_i : index x ≡ pos i = ap index (some-injective _ _ (sym at_a ∙ mine.there)) ∙ mine.at in
    let short : i < 2 ^ 15 = omega (arith, lt-length s.items i (some a) here) in
    let x₁ = set_index (pos i) x in
    let x₂ = set_index (pos i) x₁ in
    let same : set s.items i (some a) ≡ s.items = set_same s.items i (some a) here in
    let t = record s { heap = set s.heap a x₁; items = set (set s.items i (some a)) i (some a) } in
    let u = record s {
      heap = set (set s.heap a x₁) a x₂;
      items = set (set s.items i (some a)) i (some a);
    } in
    let at_a₁ : get_elem? t.heap a ≡ some x₁ = get_elem?-set-some s.heap a x x₁ at_a in
    let at_a₂ : get_elem? u.heap a ≡ some x₂ = get_elem?-set-some (set s.heap a x₁) a x₁ x₂ at_a₁ in
    let k₁ : IsKept s t =
      write-IsKept s t a x x₁ at_a (set_index-IsAlike x i short at_i) refl
        (ap (λ l. set l i (some a)) same ∙ same) refl in
    let k₂ : IsKept t u =
      write-IsKept t u a x₁ x₂ at_a₁
        (set_index-IsAlike x₁ i short (index-set_index x (pos i) (omega arith))) refl refl refl in
    let (s₁, e, k₃) = flush-IsKept u a x₂ text at_a₂ printed in
    let (x₃, at_a₃, like) = k₃.alike a x₂ at_a₂ in
    let (s', e', k₄) = flush-IsKept s₁ a x₃ text at_a₃ (ap print_gems like.same_gems ∙ printed) in
    (
      s',
      rw (move_swap, at_i, here, ◌>>=◌, modify, at_a, ◌>>=◌, at_a₁, e) e',
      IsKept-IsIndexed (IsKept-trans (IsKept-trans k₁ k₂) (IsKept-trans k₃ k₄)) v,
    )
