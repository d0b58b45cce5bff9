-- ===== src/ItemBag/Sort.antt =====
-- ItemBag::sortItems of item_bag.cpp.
use mathlib.Core.List.{reverse}
use windnet_game.Prelude.{
  ℕ, zero, suc, ◌+◌, ◌%◌, ◌^◌, ◌*◌, pos, ◌+ℤ◌, ◌-ℤ◌, ◌==ℤ◌, ltb_ℤ, leb_ℤ, Bool, not, ◌||◌, Option,
  none, some, List, [], ◌∷◌, length, get_elem?, set, resize, drop, ltb, if◌then◌else◌,
}
use windnet_game.ItemBag.{Store, default_bag_cell, list_items}
use windnet_game.Item.{Item, number, set_number, add_num, set_index}

-- How the loop ends. `fault` is the use of a null pointer, `no_fuel` that the rounds allowed were
-- too few.
pub data Ending : Type 0 where
  sorted : List Item → List (Option ℕ) → Ending
  fault : Ending
  no_fuel : Ending

-- ItemCompare
abbrev pub item_compare : Item → Item → Bool
item_compare a b =
    if not (a.template.item_type ==ℤ b.template.item_type)
    then ltb_ℤ a.template.item_type b.template.item_type
    else ltb_ℤ a.global_id b.global_id

-- std::sort of pointers by ItemCompare, as an insertion sort.
insert_item_ptr : List Item → ℕ → Item → List ℕ → List ℕ
insert_item_ptr heap a it [] = a ∷ []
insert_item_ptr heap a it (b ∷ bs) = elim (get_elem? heap b) [
  | none ↦ a ∷ b ∷ bs
  | some other ↦
      let rest = insert_item_ptr heap a it bs in
      if item_compare other it then b ∷ rest else a ∷ b ∷ bs
]

unfoldable pub sort_ptrs : List Item → List ℕ → List ℕ
unfolding insert_item_ptr
sort_ptrs heap [] = []
sort_ptrs heap (a ∷ as') = elim (get_elem? heap a) [
  | none ↦ a ∷ sort_ptrs heap as'
  | some it ↦ insert_item_ptr heap a it (sort_ptrs heap as')
]

-- One round at the item `a`: `next` goes on to the next item, with the vector's back first;
-- `again` stays at this one (the source's `--i`).
pub data Round : Type 0 where
  next : List Item → List (Option ℕ) → Round
  again : List Item → Round
  broken : Round

-- The comparison with the vector's back, which is read through its pointer.
unfoldable pub onto_back : List Item → List (Option ℕ) → ℕ → Item → Option (Option ℕ) → Round
onto_back heap built a it (some (some b)) = elim (get_elem? heap b) [
  | none ↦ broken
  | some back ↦
      if not (it.item_id ==ℤ back.item_id) || leb_ℤ back.template.stack_num (number back)
      then next heap (some a ∷ built)
      else if leb_ℤ (number back +ℤ number it) back.template.stack_num
      then next (set (set heap b (add_num (number it) back)) a (set_number (pos 0) it)) built
      else again (
          set (set heap a (add_num (number back -ℤ back.template.stack_num) it)) b
            (set_number back.template.stack_num back))
]
onto_back heap built a it _ = broken

abbrev pub back_of : List (Option ℕ) → Option (Option ℕ)
back_of [] = none
back_of (p ∷ built) = some p

-- The body of the loop over the sorted items.
unfoldable pub sort_round : List Item → List (Option ℕ) → ℕ → Round
unfolding onto_back
sort_round heap built a = elim (get_elem? heap a) [
  | none ↦ broken
  | some it ↦
      if leb_ℤ (number it) (pos 0)
      then next heap built
      else if leb_ℤ it.template.stack_num (pos 1) || leb_ℤ it.template.stack_num (number it)
      then next heap (some a ∷ built)
      else onto_back heap built a it (back_of built)
]

-- The loop, on fuel.
unfoldable pub sort_loop : ℕ → List Item → List (Option ℕ) → List ℕ → Ending
sort_loop fuel heap built [] = sorted heap built
sort_loop zero heap built (a ∷ rest) = no_fuel
sort_loop (suc fuel) heap built (a ∷ rest) = elim (sort_round heap built a) [
  | next heap' built' ↦ sort_loop fuel heap' built' rest
  | again heap' ↦ sort_loop fuel heap' built (a ∷ rest)
  | broken ↦ fault
]

-- The last loop: each item learns its place; from place `i` on.
pub number_items : ℕ → List (Option ℕ) → List Item → Option (List Item)
number_items i [] heap = some heap
number_items i (none ∷ items) heap = none
number_items i (some a ∷ items) heap = elim (get_elem? heap a) [
  | none ↦ none
  | some it ↦ number_items (suc i) items (set heap a (set_index (pos i) it))
]

-- What is done with the vector that was built: `m_items[0]` is its first, null, element.
unfoldable pub finish_sort : ℕ → Store → Ending → Option Store
unfolding number_items
finish_sort now s (sorted heap built) = elim (number_items 1 (drop 1 (reverse built)) heap) [
  | none ↦ none
  | some heap' ↦ some (record s {
    heap = heap';
    last_sync_time = now;
    items = resize (reverse built) default_bag_cell none;
  })
]
finish_sort now s _ = none

-- ItemBag::sortItems. The clock is read twice when the bag is sorted.
unfoldable pub sort_items : ℕ → ℕ → Store → Option Store
unfolding sort_ptrs sort_loop finish_sort
sort_items now now' s =
    let ptrs = sort_ptrs s.heap (list_items (drop 1 s.items)) in
    if ltb now ((s.last_sync_time + 3) % 2 ^ 32)
    then some s
    else finish_sort now' s (sort_loop (2 * length ptrs) s.heap (none ∷ []) ptrs)
