-- ===== src/ItemBag/Moving.antt =====
-- ItemBag::moveItem and the bag's invariant: pouring one stack onto another.
use mathlib.Core.Option.{some-injective}
use windnet_game.ItemBag.Swapping.{swap_empty-IsIndexed, swap_other-IsIndexed, swap_self-IsIndexed}
use windnet_game.Prelude.{
  ℕ, negsuc, not, ◌||◌, ◌==ℤ◌, ltb_ℤ, ◌==◌, ==_iff, Option-cases, lt-length, int16-eq, suc, zero,
  [], ◌∷◌, ◌^◌, ◌≤◌, ◌<◌, ◌≡◌, refl, sym, ap, ◌∙◌, inl, inr, ℤ, pos, ◌+ℤ◌, ◌-ℤ◌, leb_ℤ, true, false,
  Option, none, some, List, length, get_elem?, arith, Bool-cases,
}
use windnet_game.Prelude.Fault.{◌>>=◌}
use windnet_game.Item.{Item, number, set_number, add_num, print_gems}
use windnet_game.ItemBag.{
  Store, get, short_size, move_onto, move_item, modify, flush, remove_item, move_merge,
}
use windnet_game.ItemBag.Indexed.{IsIndexed}
use windnet_game.ItemBag.Removing.{remove_item-IsIndexed}
use windnet_game.ItemBag.Keeping.{
  IsAlike, IsKept, IsKept-trans, IsKept-IsIndexed, modify-IsKept, set_number-IsAlike,
  add_num-IsAlike, flush_two,
}

-- Two items are changed one after the other.
pub modify_two :
    (s : Store) (a b : ℕ) (x y : Item) (f g : Item → Item)
    → get_elem? s.heap a ≡ some x
    → get_elem? s.heap b ≡ some y
    → ((it : Item) → IsAlike it (f it))
    → ((it : Item) → IsAlike it (g it))
    → (s₁ s₂ : Store) × (modify a f s ≡ some s₁) × (modify b g s₁ ≡ some s₂) × IsKept s s₂
modify_two s a b x y f g at_a at_b like like' =
    let (s₁, e₁, k₁) = modify-IsKept s a x f at_a (like x) in
    let (y', at_b', _) = k₁.alike b y at_b in
    let (s₂, e₂, k₂) = modify-IsKept s₁ b y' g at_b' (like' y') in
    (s₁, s₂, e₁, e₂, IsKept-trans k₁ k₂)

module _ (s : Store) (from to i : ℕ) (x y : Item) (text text' : List ℕ) (v : IsIndexed s)
    (at_from : get_elem? s.heap from ≡ some x) (at_to : get_elem? s.heap to ≡ some y)
    (here : get_elem? s.items i ≡ some (some from)) (e : print_gems x.gems ≡ some text)
    (f : print_gems y.gems ≡ some text') (small : length s.items < 2 ^ 15) where
  -- The writes to the database behind changes that keep the items alike.
  finish :
      (t : Store)
      → ((a : ℕ) (it : Item)
          → get_elem? s.heap a ≡ some it
          → (it' : Item) × (get_elem? t.heap a ≡ some it') × IsAlike it it')
      → IsIndexed t
      → (t₁ t₂ : Store) × (flush from t ≡ some t₁) × (flush to t₁ ≡ some t₂) × IsIndexed t₂
  finish t alike w =
      let (x', at_from', like) = alike from x at_from in
      let (y', at_to', like') = alike to y at_to in
      let (t₁, t₂, e₁, e₂, k) =
        flush_two t from to x' y' text text' at_from' at_to' (ap print_gems like.same_gems ∙ e)
          (ap print_gems like'.same_gems ∙ f) in
      (t₁, t₂, e₁, e₂, IsKept-IsIndexed k w)

  pub merge-IsIndexed : (s' : Store) × (move_merge from to x y s ≡ some s') × IsIndexed s'
  unfolding move_merge remove_item
  merge-IsIndexed = elim (Bool-cases (leb_ℤ (number y +ℤ number x) x.template.stack_num)) [
    | inl fits ↦
        let (s₁, s₂, e₁, e₂, k) =
          modify_two s to from y x (add_num (number x)) (set_number (pos 0)) at_to at_from
            (add_num-IsAlike (number x)) (set_number-IsAlike (pos 0)) in
        let (x', at_from', _) = k.alike from x at_from in
        let (s₃, e₃, w, _, heap, _) =
          remove_item-IsIndexed s₂ from i x' (IsKept-IsIndexed k v) at_from'
            (ap (λ t. get_elem? t i) k.same_items ∙ here)
            (omega (arith, small, ap length k.same_items)) in
        let (t₁, t₂, f₁, f₂, done) =
          finish s₃
            (λ a it h.
              let (it', there, like) = k.alike a it h in
              (it', ap (λ t. get_elem? t a) heap ∙ there, like))
            w in
        (t₂, rw (move_merge, fits, e₁, ◌>>=◌, e₂, e₃, f₁) f₂, done)
    | inr over ↦
        let (s₁, s₂, e₁, e₂, k) =
          modify_two s from to x y (add_num (number y -ℤ x.template.stack_num))
            (set_number x.template.stack_num) at_from at_to
            (add_num-IsAlike (number y -ℤ x.template.stack_num))
            (set_number-IsAlike x.template.stack_num) in
        let (t₁, t₂, f₁, f₂, done) = finish s₂ k.alike (IsKept-IsIndexed k v) in
        (t₂, rw (move_merge, over, e₁, ◌>>=◌, e₂, f₁) f₂, done)
  ]

-- No item has an empty position among its gems, which the writing to the database cannot stand.
abbrev pub HasGems : Store → Type 0
HasGems s =
    (a : ℕ) (it : Item)
    → get_elem? s.heap a ≡ some it
    → (text : List ℕ) × (print_gems it.gems ≡ some text)

get_elem?-some :
    (xs : List (Option ℕ)) (j : ℕ) → j < length xs → (p : Option ℕ) × (get_elem? xs j ≡ some p)
get_elem?-some [] j h = elim h [ ]
get_elem?-some (x ∷ xs) zero h = (x, refl)
get_elem?-some (x ∷ xs) (suc j) h = get_elem?-some xs j (omega arith)

bounds : (j n : ℕ) → (ltb_ℤ (pos j) (pos 1) || leb_ℤ (pos n) (pos j)) ≡ false → (1 ≤ j) × (j < n)
bounds j n e = (ground arith, ground arith)

module _ (s : Store) (v : IsIndexed s) (small : length s.items < 2 ^ 15) (g : HasGems s) where
  -- Behind the two tests, from place `i` to place `j`.
  onto-IsIndexed :
      (a i j : ℕ) (x : Item) (to : Option ℕ)
      → get_elem? s.heap a ≡ some x
      → get_elem? s.items i ≡ some (some a)
      → get_elem? s.items j ≡ some to
      → 1 ≤ j
      → (s' : Store) × (move_onto a (pos j) to x s ≡ some s') × IsIndexed s'
  unfolding move_onto
  onto-IsIndexed a i j x none at_a here there low =
      let (text, printed) = g a x at_a in
      swap_empty-IsIndexed s a i j x v at_a here low (lt-length s.items j none there) small text
        printed there
  onto-IsIndexed a i j x (some b) at_a here there low =
      let yours = v.placed j b there in
      let y = yours.item in
      let (text, printed) = g a x at_a in
      let (text', printed') = g b y yours.there in
      elim (Bool-cases (not (x.item_id ==ℤ y.item_id) || (x.template.stack_num ==ℤ pos 0))) [
        | inr pour ↦
            let (s', e, w) =
              merge-IsIndexed s a b i x y text text' v at_a yours.there here printed printed'
                small in
            (s', rw (move_onto, yours.there, ◌>>=◌) (rw pour e), w)
        | inl swap ↦ elim (Bool-cases (i == j)) [
          | inl same ↦
              let at : j ≡ i = sym ((==_iff i j).0 same) in
              let self : b ≡ a =
                some-injective _ _
                  (some-injective _ _ (sym there ∙ ap (get_elem? s.items) at ∙ here)) in
              let (s', e, w) = swap_self-IsIndexed s a i x text v at_a here small printed in
              (s', rw (move_onto, yours.there, ◌>>=◌) (rw swap (rw (self, at) e)), w)
          | inr differ ↦
              let (s', e, w) =
                swap_other-IsIndexed s a i j x v at_a here low (lt-length s.items j (some b) there)
                  small b y text text' (λ d. absurd (ground arith)) there yours.there printed
                  printed' in
              (s', rw (move_onto, yours.there, ◌>>=◌) (rw swap e), w)
        ]
      ]

  -- In an indexed bag whose size is a `short`, without an empty position among the gems of any item,
  -- `moveItem` to whatever place of an id under which the map finds nothing, or an item that stands in
  -- the vector, never faults, and the bag stays indexed.
  pub move_item-IsIndexed :
      (id : ℤ) (to_idx : ℤ)
      → ((a : ℕ) → get s id ≡ some a → (i : ℕ) × (get_elem? s.items i ≡ some (some a)))
      → (s' : Store) × (move_item id to_idx s ≡ some s') × IsIndexed s'
  unfolding move_item
  move_item-IsIndexed id (negsuc n) stands = (s, rw (move_item, below) refl, v)
    where
      below : ltb_ℤ (negsuc n) (pos 1) ≡ true
      below = ground arith
  move_item-IsIndexed id (pos j) stands =
      elim (Bool-cases (ltb_ℤ (pos j) (pos 1) || leb_ℤ (short_size s) (pos j))) [
        | inl out ↦ (s, rw (move_item, out) refl, v)
        | inr inside ↦ elim (Option-cases (get s id)) [
          | inl unknown ↦ (s, rw (move_item, inside, unknown) refl, v)
          | inr (a, found) ↦
              let (i, here) = stands a found in
              let mine = v.placed i a here in
              let size : short_size s ≡ pos (length s.items) =
                int16-eq (pos (length s.items)) (omega arith) in
              let (low, inside') = bounds j (length s.items) (rw size at inside) in
              let (to, there) = get_elem?-some s.items j inside' in
              let (s', e, w) = onto-IsIndexed a i j mine.item to mine.there here there low in
              (s', rw (move_item, inside, found, mine.there, ◌>>=◌, there) e, w)
        ]
      ]
