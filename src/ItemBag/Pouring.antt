-- ===== src/ItemBag/Pouring.antt =====
-- Pouring one stack onto another in ItemBag::moveItem neither makes nor loses items.
use windnet_game.Prelude.{
  ℕ, ◌+◌, ◌^◌, ◌<◌, ◌≡◌, ◌≢◌, sym, ap, ap₂, ◌∙◌, inl, inr, ℤ, pos, ◌+ℤ◌, ◌-ℤ◌, ◌≤ℤ◌, leb_ℤ,
  +ℤ_parts, -ℤ_parts, eq_of_parts, int_laws, pos_part, neg_part, int16-IsShort, IsShort, true,
  false, some, List, length, get_elem?, arith, Bool-cases,
}
use windnet_game.Prelude.Fault.{◌>>=◌}
use windnet_game.Item.{Item, number, set_number, add_num, print_gems}
use windnet_game.ItemBag.{Store, flush, move_merge}
use windnet_game.ItemBag.Numbers.{number-set_number, number-add_num}
use windnet_game.ItemBag.Indexed.{IsIndexed}
use windnet_game.ItemBag.Removing.{remove_item-IsIndexed}
use windnet_game.ItemBag.Keeping.{
  IsKept-IsIndexed, set_number-IsAlike, add_num-IsAlike, flush-IsKept,
}
use windnet_game.ItemBag.Counting.{modify_at, modify_off, flush-number}
use windnet_game.ItemBag.Moving.{modify_two}

-- What is poured when the other stack is filled up, on plain integers.
module _ (x y k : ℤ) (low_y : pos 0 ≤ℤ y) (low : pos 0 ≤ℤ k) (short_y : IsShort y)
    (short : IsShort k) where
  poured-IsShort : IsShort (y -ℤ k)
  poured-IsShort = (omega (arith, -ℤ_parts y k), omega (arith, -ℤ_parts y k))

  left-IsShort : pos 0 ≤ℤ x → IsShort (y +ℤ x) → leb_ℤ (y +ℤ x) k ≡ false → IsShort (x +ℤ (y -ℤ k))
  left-IsShort low_x sum over =
      (omega (arith, parts, less, +ℤ_parts y x), omega (arith, parts, +ℤ_parts y x))
    where
      parts :
          (pos_part (y -ℤ k) + neg_part y + pos_part k
            ≡ neg_part (y -ℤ k) + pos_part y + neg_part k)
          × (pos_part (x +ℤ (y -ℤ k)) + neg_part x + neg_part (y -ℤ k)
              ≡ neg_part (x +ℤ (y -ℤ k)) + pos_part x + pos_part (y -ℤ k))
      parts = (-ℤ_parts y k, +ℤ_parts x (y -ℤ k))

      less : pos_part k + neg_part (y +ℤ x) < pos_part (y +ℤ x) + neg_part k
      less = ground arith

  same_sum : x +ℤ (y -ℤ k) +ℤ k ≡ x +ℤ y
  same_sum =
      eq_of_parts _ _
        (omega (arith, -ℤ_parts y k, +ℤ_parts x (y -ℤ k), +ℤ_parts (x +ℤ (y -ℤ k)) k, +ℤ_parts x y))

module _ (from to : ℕ) (text text' : List ℕ) where
  -- Both items are written to the database.
  both_flushed :
      (t : Store) (x y : Item)
      → get_elem? t.heap from ≡ some x
      → get_elem? t.heap to ≡ some y
      → print_gems x.gems ≡ some text
      → print_gems y.gems ≡ some text'
      → (t₁ t₂ : Store) × (x' y' : Item) × (flush from t ≡ some t₁)
        × (flush to t₁ ≡ some t₂)
        × (get_elem? t₂.heap from ≡ some x')
        × (get_elem? t₂.heap to ≡ some y')
        × (number x' ≡ number x)
        × (number y' ≡ number y)
  both_flushed t x y at_from at_to e f =
      let (t₁, e₁, _) = flush-IsKept t from x text at_from e in
      let (x₁, at₁, n₁, _) = flush-number t t₁ from x text at_from e e₁ from x at_from in
      let (y₁, at₁', n₁', g₁) = flush-number t t₁ from x text at_from e e₁ to y at_to in
      let f₁ : print_gems y₁.gems ≡ some text' = ap print_gems g₁ ∙ f in
      let (t₂, e₂, _) = flush-IsKept t₁ to y₁ text' at₁' f₁ in
      let (x₂, at₂, n₂, _) = flush-number t₁ t₂ to y₁ text' at₁' f₁ e₂ from x₁ at₁ in
      let (y₂, at₂', n₂', _) = flush-number t₁ t₂ to y₁ text' at₁' f₁ e₂ to y₁ at₁' in
      (t₁, t₂, x₂, y₂, e₁, e₂, at₂, at₂', n₂ ∙ n₁, n₂' ∙ n₁')

-- What pouring gives: a store in which the two have together as many as before.
abbrev pub Conserves : Store → ℕ → ℕ → Item → Item → Type 0
Conserves s from to x y =
    (s' : Store) × (x' y' : Item) × (move_merge from to x y s ≡ some s')
    × (get_elem? s'.heap from ≡ some x')
    × (get_elem? s'.heap to ≡ some y')
    × (number x' +ℤ number y' ≡ number x +ℤ number y)

module _ (s : Store) (from to i : ℕ) (x y : Item) (text text' : List ℕ) (v : IsIndexed s)
    (at_from : get_elem? s.heap from ≡ some x) (at_to : get_elem? s.heap to ≡ some y)
    (here : get_elem? s.items i ≡ some (some from)) (e : print_gems x.gems ≡ some text)
    (f : print_gems y.gems ≡ some text') (small : length s.items < 2 ^ 15) (apart : from ≢ to)
    (sum : IsShort (number y +ℤ number x)) where
  pour_all : leb_ℤ (number y +ℤ number x) x.template.stack_num ≡ true → Conserves s from to x y
  unfolding move_merge add_num
  pour_all fits =
      let up = add_num (number x) in
      let empty = set_number (pos 0) in
      let (s₁, s₂, e₁, e₂, k) =
        modify_two s to from y x up empty at_to at_from (add_num-IsAlike (number x))
          (set_number-IsAlike (pos 0)) in
      let at_from₁ : get_elem? s₁.heap from ≡ some x =
        modify_off s s₁ to up e₁ from y x (λ d. apart (sym d)) at_to at_from in
      let at_to₁ : get_elem? s₁.heap to ≡ some (up y) = modify_at s s₁ to up e₁ y at_to in
      let at_from₂ : get_elem? s₂.heap from ≡ some (empty x) =
        modify_at s₁ s₂ from empty e₂ x at_from₁ in
      let at_to₂ : get_elem? s₂.heap to ≡ some (up y) =
        modify_off s₁ s₂ from empty e₂ to x (up y) apart at_from₁ at_to₁ in
      let (s₃, e₃, _, _, heap, _) =
        remove_item-IsIndexed s₂ from i (empty x) (IsKept-IsIndexed k v) at_from₂
          (ap (λ t. get_elem? t i) k.same_items ∙ here)
          (omega (arith, small, ap length k.same_items)) in
      let (t₁, t₂, x', y', f₁, f₂, at_x, at_y, n, n') =
        both_flushed from to text text' s₃ (empty x) (up y)
          (ap (λ t. get_elem? t from) heap ∙ at_from₂) (ap (λ t. get_elem? t to) heap ∙ at_to₂) e
          f in
      let none_left : number x' ≡ pos 0 = n ∙ number-set_number x (pos 0) (omega arith) in
      let all : number y' ≡ number y +ℤ number x =
        n' ∙ number-add_num y (number x) (int16-IsShort x.item_num) sum in
      (
        t₂,
        x',
        y',
        rw (move_merge, fits, e₁, ◌>>=◌, e₂, e₃, f₁) f₂,
        at_x,
        at_y,
        ap₂ ◌+ℤ◌ none_left all ∙ eq_of_parts _ _ (omega int_laws),
      )

  pour_some :
      pos 0 ≤ℤ number x
      → pos 0 ≤ℤ number y
      → pos 0 ≤ℤ x.template.stack_num
      → IsShort x.template.stack_num
      → leb_ℤ (number y +ℤ number x) x.template.stack_num ≡ false
      → Conserves s from to x y
  unfolding move_merge add_num
  pour_some low_x low_y low stack over =
      let stack_num = x.template.stack_num in
      let down = add_num (number y -ℤ stack_num) in
      let fill = set_number stack_num in
      let (s₁, s₂, e₁, e₂, k) =
        modify_two s from to x y down fill at_from at_to (add_num-IsAlike (number y -ℤ stack_num))
          (set_number-IsAlike stack_num) in
      let at_to₁ : get_elem? s₁.heap to ≡ some y =
        modify_off s s₁ from down e₁ to x y apart at_from at_to in
      let at_from₁ : get_elem? s₁.heap from ≡ some (down x) =
        modify_at s s₁ from down e₁ x at_from in
      let at_to₂ : get_elem? s₂.heap to ≡ some (fill y) = modify_at s₁ s₂ to fill e₂ y at_to₁ in
      let at_from₂ : get_elem? s₂.heap from ≡ some (down x) =
        modify_off s₁ s₂ to fill e₂ from y (down x) (λ d. apart (sym d)) at_to₁ at_from₁ in
      let (t₁, t₂, x', y', f₁, f₂, at_x, at_y, n, n') =
        both_flushed from to text text' s₂ (down x) (fill y) at_from₂ at_to₂ e f in
      let rest : number x' ≡ number x +ℤ (number y -ℤ stack_num) =
        n
        ∙ number-add_num x (number y -ℤ stack_num)
            (poured-IsShort (number x) (number y) stack_num low_y low (int16-IsShort y.item_num)
              stack)
            (left-IsShort (number x) (number y) stack_num low_y low (int16-IsShort y.item_num) stack
              low_x sum over) in
      let full : number y' ≡ stack_num = n' ∙ number-set_number y stack_num stack in
      (
        t₂,
        x',
        y',
        rw (move_merge, over, e₁, ◌>>=◌, e₂, f₁) f₂,
        at_x,
        at_y,
        ap₂ ◌+ℤ◌ rest full
            ∙ same_sum (number x) (number y) stack_num low_y low (int16-IsShort y.item_num) stack,
      )

-- In an indexed bag, whose size is a `short`, the branch of `moveItem` that pours an item of the
-- vector onto another item never faults and leaves the two with as many as they had together, where
-- neither has an empty position among its gems, the two numbers and the stack's size are not
-- negative, and the stack's size and the sum of the numbers are `short`s.
pub move_merge-Conserves :
    (s : Store) (from to i : ℕ) (x y : Item) (text text' : List ℕ)
    → IsIndexed s
    → get_elem? s.heap from ≡ some x
    → get_elem? s.heap to ≡ some y
    → get_elem? s.items i ≡ some (some from)
    → print_gems x.gems ≡ some text
    → print_gems y.gems ≡ some text'
    → length s.items < 2 ^ 15
    → from ≢ to
    → pos 0 ≤ℤ number x
    → pos 0 ≤ℤ number y
    → pos 0 ≤ℤ x.template.stack_num
    → IsShort x.template.stack_num
    → IsShort (number y +ℤ number x)
    → Conserves s from to x y
move_merge-Conserves s from to i x y text text' v at_from at_to here e f small apart low_x low_y low
      stack sum =
    elim (Bool-cases (leb_ℤ (number y +ℤ number x) x.template.stack_num)) [
      | inl fits ↦ pour_all s from to i x y text text' v at_from at_to here e f small apart sum fits
      | inr over ↦
          pour_some s from to i x y text text' v at_from at_to here e f small apart sum low_x low_y
            low stack over
    ]
