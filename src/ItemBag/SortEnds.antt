-- ===== src/ItemBag/SortEnds.antt =====
-- The fault that ItemBag::sortItems meets where the first item in order is a stack that is not full.
use windnet_game.Prelude.{
  ℕ, zero, suc, ◌+◌, ◌*◌, ◌%◌, ◌^◌, ◌<◌, ◌≡◌, refl, pos, leb_ℤ, false, ltb, none, some, List, [],
  ◌∷◌, length, get_elem?, drop, arith,
}
use windnet_game.Item.{Item, number}
use windnet_game.ItemBag.{Store, list_items}
use windnet_game.ItemBag.Sort.{
  fault, broken, onto_back, sort_round, sort_loop, sort_ptrs, finish_sort, sort_items,
}

-- An item with a positive number that is a stack, and not a full one.
pub record IsPartial (it : Item) : Type 0 where
  pub some_left : leb_ℤ (number it) (pos 0) ≡ false
  pub stacks : leb_ℤ it.template.stack_num (pos 1) ≡ false
  pub not_full : leb_ℤ it.template.stack_num (number it) ≡ false

round_null :
    (heap : List Item) (a : ℕ) (it : Item)
    → get_elem? heap a ≡ some it
    → IsPartial it
    → sort_round heap (none ∷ []) a ≡ broken
unfolding sort_round onto_back
round_null heap a it there h =
    rw (sort_round, there) (rw (h.some_left, h.stacks, h.not_full, onto_back) refl)

loop_null :
    (fuel : ℕ) (heap : List Item) (a : ℕ) (rest : List ℕ)
    → 0 < fuel
    → sort_round heap (none ∷ []) a ≡ broken
    → sort_loop fuel heap (none ∷ []) (a ∷ rest) ≡ fault
unfolding sort_loop
loop_null zero heap a rest h e = absurd (omega arith)
loop_null (suc fuel) heap a rest h e = rw (sort_loop, e) refl

-- At least three seconds after the last sorting, sorting a bag uses a null pointer where the first
-- item in order is a stack with a positive number that is not full: it is compared with the null
-- pointer that stands at the vector's place 0.
sort_null :
    (s : Store) (now now' : ℕ) (a : ℕ) (rest : List ℕ) (it : Item)
    → ltb now ((s.last_sync_time + 3) % 2 ^ 32) ≡ false
    → sort_ptrs s.heap (list_items (drop 1 s.items)) ≡ a ∷ rest
    → get_elem? s.heap a ≡ some it
    → IsPartial it
    → sort_items now now' s ≡ none
unfolding sort_items finish_sort
sort_null s now now' a rest it late ptrs there h =
    rw (late, ptrs)
      (rw (
        loop_null (2 * suc (length rest)) s.heap a rest (omega arith)
          (round_null s.heap a it there h)))
