-- ===== src/ItemBag.antt =====
-- item_bag.h and item_bag.cpp. Items are shared by the map, the vector and the callers, so they
-- stand in a heap, and a boost::shared_ptr<Item> is an address in it; nothing is freed. A method
-- takes the store and returns it, `none` being a fault.
pub mod Numbers
pub mod Indexed
pub mod Adding
pub mod Removing
pub mod Keeping
pub mod Counting
pub mod Swapping
pub mod Moving
pub mod Pouring
pub mod Load
pub mod Move
pub mod Sort
pub mod SortEnds
pub mod SortRounds
mod Tests
use windnet_game.Prelude.{
  ℕ, zero, suc, ◌+◌, ◌%◌, ◌^◌, ℤ, pos, negsuc, ◌+ℤ◌, ◌-ℤ◌, ◌==ℤ◌, ltb_ℤ, leb_ℤ, int16, Bool, true,
  false, not, ◌&&◌, ◌||◌, Option, none, some, List, [], ◌∷◌, ◌++◌, length, get_elem?, set, resize,
  drop, Map, find, put, erase, int_key, ltb, if◌then◌else◌,
}
use windnet_game.Prelude.Fault.{◌>>=◌}
use windnet_game.Item.{Item, Statement, number, set_number, add_num, index, set_index, flush_to_db}

abbrev pub default_bag_cell : ℕ
default_bag_cell = 25

-- The bag's fields, the items, and the statements sent to the database, the latest first.
pub record Store : Type 0 where
  pub heap : List Item
  pub last_sync_time : ℕ
  pub item_map : Map ℤ ℕ
  pub items : List (Option ℕ)
  pub db : List Statement

-- The constructor; `heap` and `db` are what is there.
pub init : List Item → List Statement → Store
init heap db = record {
  heap = heap;
  last_sync_time = 0;
  item_map = [];
  items = resize [] default_bag_cell none;
  db = db;
}

abbrev pub deref : Store → ℕ → Option Item
deref s a = get_elem? s.heap a

-- A write to the object at an address.
abbrev pub write_item : ℕ → Item → Store → Store
write_item a it s = record s { heap = set s.heap a it }

unfoldable pub modify : ℕ → (Item → Item) → Store → Option Store
modify a f s = do it ← deref s a; some (write_item a (f it) s)

-- item->flushToDB(conn)
unfoldable pub flush : ℕ → Store → Option Store
flush a s = do
  it ← deref s a
  (it', statement) ← flush_to_db it
  some (record s { heap = set s.heap a it'; db = statement ∷ s.db })

-- m_items[idx]; `none` is a place outside the vector.
abbrev pub slot : List (Option ℕ) → ℤ → Option (Option ℕ)
slot items (pos n) = get_elem? items n
slot items (negsuc n) = none

abbrev pub set_slot : List (Option ℕ) → ℤ → Option ℕ → List (Option ℕ)
set_slot items (pos n) p = set items n p
set_slot items (negsuc n) p = items

-- (short)m_items.size()
abbrev pub short_size : Store → ℤ
short_size s = int16 (pos (length s.items))

-- The place of the first null pointer, or the size.
unfoldable pub first_empty : List (Option ℕ) → ℕ
first_empty [] = 0
first_empty (none ∷ items) = 0
first_empty (some a ∷ items) = suc (first_empty items)

-- ItemBag::get
unfoldable pub get : Store → ℤ → Option ℕ
get s id = find id s.item_map

-- ItemBag::addItem
unfoldable pub add_item : ℕ → Store → Option Store
unfolding first_empty
add_item a s = do
  it ← deref s a
  let idx = suc (first_empty (drop 1 s.items))
  let items = if ltb idx (length s.items) then s.items else resize s.items (suc idx) none
  some (record s {
    heap = set s.heap a (set_index (pos idx) it);
    items = set items idx (some a);
    item_map = put it.global_id a s.item_map;
  })

-- ItemBag::removeItem
unfoldable pub remove_item : ℕ → Bool → Store → Option Store
remove_item a reside_in_map s = do
  it ← deref s a
  let inside = leb_ℤ (pos 1) (index it) && ltb_ℤ (index it) (short_size s)
  some (record s {
    items = if inside then set_slot s.items (index it) none else s.items;
    item_map = if reside_in_map then s.item_map else erase it.global_id s.item_map;
  })

-- The loop of ItemBag::stackItem over the vector; the vector itself does not change.
unfoldable pub stack_loop : ℕ → ℤ → List (Option ℕ) → Store → Option Store
stack_loop a stack_num [] s = some s
stack_loop a stack_num (none ∷ slots) s = stack_loop a stack_num slots s
stack_loop a stack_num (some b ∷ slots) s = do
  item ← deref s a
  other ← deref s b
  let skip = stack_loop a stack_num slots s
  if leb_ℤ (number item) (pos 0) || not (other.item_id ==ℤ item.item_id)
      then skip
      else if leb_ℤ (number other +ℤ number item) stack_num
      then modify b (add_num (number item)) s >>= modify a (set_number (pos 0))
      else modify a (add_num (number other -ℤ stack_num)) s
        >>= modify b (set_number stack_num)
        >>= stack_loop a stack_num slots

-- ItemBag::stackItem
unfoldable pub stack_item : ℕ → Store → Option (Bool × Store)
stack_item a s = do
  item ← deref s a
  if item.template.stack_num ==ℤ pos 0
      then some (false, s)
      else do s' ← stack_loop a item.template.stack_num s.items s; some (true, s')

-- std::swap of two places of the vector, and the new indices.
pub move_swap : ℕ → Option ℕ → ℤ → ℤ → Store → Option Store
move_swap from to from_idx to_idx s = do
  p ← slot s.items from_idx
  let items = set_slot (set_slot s.items from_idx to) to_idx p
  s₁ ← modify from (set_index to_idx) (record s { items = items })
  s₂ ← elim to [ none ↦ some s₁ | some b ↦ modify b (set_index from_idx) s₁ >>= flush b ]
  flush from s₂

-- The other branch of ItemBag::moveItem: one stack is poured onto the other.
pub move_merge : ℕ → ℕ → Item → Item → Store → Option Store
move_merge from to from_item to_item s = do
  let stack_num = from_item.template.stack_num
  s₁ ←
      if leb_ℤ (number to_item +ℤ number from_item) stack_num
      then modify to (add_num (number from_item)) s
        >>= modify from (set_number (pos 0))
        >>= remove_item from false
      else modify from (add_num (number to_item -ℤ stack_num)) s
        >>= modify to (set_number stack_num)
  s₂ ← flush from s₁
  flush to s₂

-- The part of moveItem behind its two tests.
pub move_onto : ℕ → ℤ → Option ℕ → Item → Store → Option Store
move_onto from to_idx none from_item s = move_swap from none (index from_item) to_idx s
move_onto from to_idx (some to) from_item s = do
  to_item ← deref s to
  if not (from_item.item_id ==ℤ to_item.item_id) || (from_item.template.stack_num ==ℤ pos 0)
      then move_swap from (some to) (index from_item) to_idx s
      else move_merge from to from_item to_item s

-- ItemBag::moveItem
unfoldable pub move_item : ℤ → ℤ → Store → Option Store
move_item from_id to_idx s =
    if ltb_ℤ to_idx (pos 1) || leb_ℤ (short_size s) to_idx then some s else elim (get s from_id) [
      | none ↦ some s
      | some from ↦ do
        from_item ← deref s from
        to ← slot s.items to_idx
        move_onto from to_idx to from_item s
    ]

-- ItemBag::listItems: the pointers that are not null, in order.
pub list_items : List (Option ℕ) → List ℕ
list_items [] = []
list_items (none ∷ items) = list_items items
list_items (some a ∷ items) = a ∷ list_items items

-- ItemBag::getItemCountByTemplateId: how many entries of the map, whatever their numbers.
unfoldable pub get_item_count_by_template_id : List Item → Map ℤ ℕ → ℤ → Option ℤ
get_item_count_by_template_id heap [] template_id = some (pos 0)
get_item_count_by_template_id heap ((id, a) ∷ m) template_id = do
  it ← get_elem? heap a
  rest ← get_item_count_by_template_id heap m template_id
  some (if it.item_id ==ℤ template_id then rest +ℤ pos 1 else rest)
