-- ===== src/ItemBag/Removing.antt =====
-- ItemBag::removeItem and the bag's invariant.
use mathlib.Core.Option.{some-injective, some-ne-none}
use windnet_game.Prelude.{
  ℕ, ◌^◌, ◌<◌, ◌≡◌, ◌≢◌, refl, sym, ap, ◌∙◌, inl, inr, pos, ==ℤ_iff, int16-eq, leb_ℤ, ltb_ℤ, ◌&&◌,
  true, false, none, some, length, get_elem?, get_elem?-set_ne, lt-length, set, erase, find-erase,
  int_key, arith,
}
use windnet_game.Prelude.Places.{get_elem?-set}
use windnet_game.Item.{Item, index}
use windnet_game.ItemBag.{Store, get, short_size, remove_item}
use windnet_game.ItemBag.Indexed.{IsPlaced, IsIndexed, find-erase_other, one_place, positive}

-- In an indexed bag whose size is a `short`, `removeItem` of an item in the vector empties its
-- place, makes the map forget it, leaves the other items as they are and where they are, and keeps
-- the bag indexed.
pub remove_item-IsIndexed :
    (s : Store) (a i : ℕ) (it : Item)
    → IsIndexed s
    → get_elem? s.heap a ≡ some it
    → get_elem? s.items i ≡ some (some a)
    → length s.items < 2 ^ 15
    → (s' : Store) × (remove_item a false s ≡ some s')
      × IsIndexed s'
      × (s'.items ≡ set s.items i none)
      × (s'.heap ≡ s.heap)
      × (get s' it.global_id ≡ none)
unfolding remove_item get
remove_item-IsIndexed s a i it v there here small = (
  s',
  rw (remove_item, there) (rw (at_i, inside) refl),
  record {
    low =
        get_elem?-set_ne s.items i 0 none (λ e. absurd (omega (arith, positive v i a here)))
        ∙ v.low;
    placed = λ j b e. elim (get_elem?-set s.items i none j (some b) e) [
      | inl (_, same) ↦ absurd (some-ne-none b same)
      | inr (other, old) ↦ kept j b other old
    ];
  },
  refl,
  refl,
  rw (find-erase it.global_id it.global_id s.item_map, (==ℤ_iff it.global_id it.global_id).1 refl)
      refl,
)
  where
    mine : IsPlaced s i a
    mine = v.placed i a here

    same_item : mine.item ≡ it
    same_item = some-injective _ _ (sym mine.there ∙ there)

    at_i : index it ≡ pos i
    at_i = ap index (sym same_item) ∙ mine.at

    s' : Store
    s' = record s { items = set s.items i none; item_map = erase it.global_id s.item_map }

    inside : leb_ℤ (pos 1) (pos i) && ltb_ℤ (pos i) (short_size s) ≡ true
    inside =
        rw (int16-eq (pos (length s.items)) (omega arith))
          (ground (arith, positive v i a here, lt-length s.items i (some a) here))

    kept : (j b : ℕ) → j ≢ i → get_elem? s.items j ≡ some (some b) → IsPlaced s' j b
    kept j b other e =
        let old = v.placed j b e in
        record {
          item = old.item;
          there = old.there;
          at = old.at;
          mapped =
              find-erase_other s.item_map it.global_id a old.item.global_id b
                (ap (λ x. get s x.global_id) (sym same_item) ∙ mine.mapped)
                (λ same. other (one_place v j i b e (here ∙ ap (λ c. some (some c)) (sym same))))
                old.mapped;
        }
