-- ===== src/ItemBag/Indexed.antt =====
-- The bag's invariant: an item in the vector knows its place, and the map finds it by its id.
use mathlib.Core.Option.{some-injective, some-ne-none}
use windnet_game.Prelude.{
  ℕ, zero, suc, ◌≤◌, ◌≡◌, ◌≢◌, refl, sym, ap, ◌∙◌, inl, inr, ℤ, pos, pos_part, ◌==ℤ◌, ==ℤ_iff, none,
  some, get_elem?, find, put, erase, Map, find-put, find-erase, int_key, arith, Bool-cases,
}
use windnet_game.Item.{Item, index}
use windnet_game.ItemBag.{Store, get}

-- The item at a place of the vector.
pub record IsPlaced (s : Store) (i a : ℕ) : Type 0 where
  pub item : Item
  pub there : get_elem? s.heap a ≡ some item
  pub at : index item ≡ pos i
  pub mapped : get s item.global_id ≡ some a

-- The vector has a place 0, which stays empty, and every item in it is placed.
pub record IsIndexed (s : Store) : Type 0 where
  pub low : get_elem? s.items 0 ≡ some none
  pub placed : (i a : ℕ) → get_elem? s.items i ≡ some (some a) → IsPlaced s i a

-- The map of integers to addresses.
module _ (m : Map ℤ ℕ) (k : ℤ) (a : ℕ) where
  pub find-put_self : find k (put k a m) ≡ some a
  find-put_self = rw (find-put k k a m, (==ℤ_iff k k).1 refl) refl

  pub find-put_other :
      (j : ℤ) (b : ℕ) → find k m ≡ none → find j m ≡ some b → find j (put k a m) ≡ some b
  find-put_other j b fresh e = elim (Bool-cases (k ==ℤ j)) [
    | inl same ↦
        absurd (some-ne-none b (sym e ∙ ap (λ t. find t m) (sym ((==ℤ_iff k j).0 same)) ∙ fresh))
    | inr other ↦ rw (find-put k j a m, other) e
  ]

  pub find-erase_other :
      (j : ℤ) (b : ℕ) → find k m ≡ some a → b ≢ a → find j m ≡ some b → find j (erase k m) ≡ some b
  find-erase_other j b mine other e = elim (Bool-cases (k ==ℤ j)) [
    | inl same ↦ absurd (
        other (some-injective _ _ (sym e ∙ ap (λ t. find t m) (sym ((==ℤ_iff k j).0 same)) ∙ mine)))
    | inr differs ↦ rw (find-erase k j m, differs) e
  ]

-- In an indexed bag no item stands at two places.
pub one_place :
    {s : Store}
    → IsIndexed s
    → (i j a : ℕ) → get_elem? s.items i ≡ some (some a)
    → get_elem? s.items j ≡ some (some a)
    → i ≡ j
one_place v i j a e f =
    let at_i = v.placed i a e in
    let at_j = v.placed j a f in
    let same : at_j.item ≡ at_i.item = some-injective _ _ (sym at_j.there ∙ at_i.there) in
    ap pos_part (sym at_i.at ∙ ap index (sym same) ∙ at_j.at)

pub positive : {s : Store} → IsIndexed s → (i a : ℕ) → get_elem? s.items i ≡ some (some a) → 1 ≤ i
positive v zero a e = absurd (some-ne-none a (some-injective _ _ (sym e ∙ v.low)))
positive v (suc i) a e = omega arith
