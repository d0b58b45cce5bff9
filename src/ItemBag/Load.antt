-- ===== src/ItemBag/Load.antt =====
-- ItemBag::loadFromDB of item_bag.cpp, on the rows that the database returns.
use windnet_game.Prelude.{
  true, false, ℕ, suc, ℤ, pos, negsuc, ◌==ℤ◌, int16, not, Option, none, some, List, [], ◌∷◌, ◌++◌,
  map, length, set, resize, insert, int_key, ltb, if◌then◌else◌,
}
use windnet_game.Prelude.Fault.{◌>>=◌}
use windnet_game.Prelude.Outcome.{Outcome, fault, thrown, ok, need}
use windnet_game.Item.{ItemTemplate, Item, Gem, index, item_state_normal}
use windnet_game.Item.Gems.{load_gems}
use windnet_game.ItemBag.{Store}

-- The columns that are read.
pub record Row : Type 0 where
  pub id : ℤ
  pub item_id : ℤ
  pub number : ℤ
  pub item_idx : ℤ
  pub state : ℤ
  pub gems : List ℕ
  pub is_equip : ℤ

-- The item that a row describes.
unfoldable pub item_of : ItemTemplate → ℤ → Row → List (Option Gem) → Item
item_of it role_id row gems = record {
  template = it;
  global_id = row.id;
  role_id = role_id;
  item_id = row.item_id;
  item_num = int16 row.number;
  item_index = int16 row.item_idx;
  item_level = pos 0;
  item_state = pos 0;
  item_quality = pos 0;
  equipped = not (row.is_equip ==ℤ pos 0);
  gems = gems;
}

-- m_items[item->index()] = item, after the resize. A negative index passes the test of the size and
-- is a write in front of the array.
unfoldable pub put_in_place : ℤ → ℕ → List (Option ℕ) → Option (List (Option ℕ))
put_in_place (negsuc n) a items = none
put_in_place (pos n) a items =
    some (set (if ltb n (length items) then items else resize items (suc n) none) n (some a))

-- The part of the loop's body behind its tests. The role's equipment is the list of the items that
-- are worn, the latest last.
unfoldable pub load_item : Item → Store × List ℕ → Option (Store × List ℕ)
load_item it (s, worn) = do
  let a = length s.heap
  let item_map = insert it.global_id a s.item_map
  items ← if it.equipped then some s.items else put_in_place (index it) a s.items
  let worn' = if it.equipped then worn ++ a ∷ [] else worn
  some (record s { heap = s.heap ++ it ∷ []; items = items; item_map = item_map }, worn')

-- A call of boost::lexical_cast, whose exception nothing in the loop catches.
abbrev casts {ℓ} : {A : Type ℓ} → Option A → Outcome A
casts none = thrown
casts (some a) = ok a

-- The body of the loop. `get_template` stands for ItemTemplateManager::get and `cast` for
-- boost::lexical_cast<int>. An exception comes before the item is put anywhere.
unfoldable pub load_row :
    (ℤ → Option ItemTemplate)
    → (List ℕ → Option ℤ)
    → ℤ
    → Row
    → Store × List ℕ
    → Outcome (Store × List ℕ)
load_row get_template cast role_id row so_far = elim (get_template row.item_id) [
  | none ↦ ok so_far
  | some it ↦ elim (not (row.state ==ℤ item_state_normal)) [
    | true ↦ ok so_far
    | false ↦ elim (casts (load_gems cast row.gems)) [
      | fault ↦ fault
      | thrown ↦ thrown
      | ok gems ↦ need (load_item (item_of it role_id row (map some gems)) so_far)
    ]
  ]
]

-- How the loading ends: at memory that is not its own, at an exception behind the rows that were
-- loaded until then, or behind all rows.
pub data Loading : Type 0 where
  broken : Loading
  stopped : Store × List ℕ → Loading
  loaded : Store × List ℕ → Loading

-- ItemBag::loadFromDB
unfoldable pub load_from_db :
    (ℤ → Option ItemTemplate) → (List ℕ → Option ℤ) → ℤ → List Row → Store × List ℕ → Loading
load_from_db get_template cast role_id [] so_far = loaded so_far
load_from_db get_template cast role_id (row ∷ rows) so_far =
    elim (load_row get_template cast role_id row so_far) [
      | fault ↦ broken
      | thrown ↦ stopped so_far
      | ok so_far' ↦ load_from_db get_template cast role_id rows so_far'
    ]
