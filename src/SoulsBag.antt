-- ===== src/SoulsBag.antt =====
-- souls_bag.h and souls_bag.cpp: the souls that a role has hunted, stored and equipped. A `SoulItem *`
-- is an address in a heap, in which a freed soul leaves `none`. A method takes the store and returns
-- it, `none` being a fault.
pub mod FreeIndex
pub mod Storing
pub mod Load
mod Tests
use windnet_game.Prelude.{
  ℕ, zero, suc, ◌+◌, ◌%◌, ◌^◌, ℤ, pos, negsuc, ◌+ℤ◌, ◌==ℤ◌, ltb_ℤ, leb_ℤ, int16, int32, Bool, true,
  false, not, ◌&&◌, ◌==◌, ltb, leb, Option, none, some, List, [], ◌∷◌, length, get_elem?, get_or,
  set, resize, replicate, Map, find, put, insert, erase, int_key, if◌then◌else◌,
}
use windnet_game.Prelude.Fault.{◌>>=◌}
use windnet_game.Item.{ItemTemplate, Statement, insert_soul, update_soul}
use windnet_game.ItemBag.{first_empty, slot, set_slot}

abbrev pub hunted_type : ℤ
hunted_type = pos 0

abbrev pub in_bag_type : ℤ
in_bag_type = pos 1

abbrev pub deleted_type : ℤ
deleted_type = pos 100

-- SoulItem, whose fields but the template are those of its message, each an `int32`.
pub record SoulItem : Type 0 where
  pub template : ItemTemplate
  pub id : ℤ
  pub soul_id : ℤ
  pub place : ℤ
  pub soul_type : ℤ
  pub exp : ℤ

unfoldable pub create_soul : ItemTemplate → SoulItem
create_soul it = record {
  template = it;
  id = pos 0;
  soul_id = pos 0;
  place = pos 0;
  soul_type = hunted_type;
  exp = pos 0;
}

abbrev pub soul_index : SoulItem → ℤ
soul_index soul = int16 soul.place

abbrev pub set_soul_index : ℤ → SoulItem → SoulItem
set_soul_index val soul = record soul { place = int16 val }

abbrev pub set_soul_type : ℤ → SoulItem → SoulItem
set_soul_type val soul = record soul { soul_type = int16 val }

-- SoulItem::addExp
unfoldable pub add_exp : ℤ → SoulItem → SoulItem
add_exp val soul =
    let sum = int32 (soul.exp +ℤ val) in
    record soul { exp = if ltb_ℤ sum (pos 0) then pos 0 else sum }

-- SoulItem::flushNewToDB, where `executed` is whether the database took the statement and `auto_id`
-- the id that it gave.
unfoldable pub flush_new_soul_to_db : Bool → ℤ → ℤ → SoulItem → SoulItem × Statement
flush_new_soul_to_db executed auto_id role_id soul = (
  (if executed then record soul { id = auto_id } else soul),
  insert_soul soul.soul_id (soul_index soul) (int16 soul.soul_type) soul.exp role_id,
)

-- SoulItem::flushToDB
unfoldable pub flush_soul_to_db : SoulItem → Statement
flush_soul_to_db soul =
    update_soul soul.soul_id (soul_index soul) (int16 soul.soul_type) soul.exp soul.id

abbrev pub max_hunt_souls_count : ℕ
max_hunt_souls_count = 18

-- SOULS_COUNT_PER_PAGE * PAGE_COUNT
abbrev pub bag_places : ℕ
bag_places = 48

pub record SoulStore : Type 0 where
  pub souls : List (Option SoulItem)
  pub hunted : Map ℤ ℕ
  pub bag : Map ℤ ℕ
  pub vect : List (Option ℕ)
  pub equipped : Map ℤ ℕ

-- The constructor: `m_soulsVect` has no place before loadFromDB.
unfoldable pub init_souls : List (Option SoulItem) → SoulStore
init_souls souls = record { souls = souls; hunted = []; bag = []; vect = []; equipped = [] }

-- A use of a pointer.
unfoldable pub soul_at : List (Option SoulItem) → ℕ → Option SoulItem
soul_at souls a = get_or souls a none

-- The `short` counters of nextHuntSoulIndex, as their bits: one soul is counted at its index.
pub count_index : ℤ → List ℕ → Option (List ℕ)
count_index (negsuc n) counts = none
count_index (pos n) counts = elim (get_elem? counts n) [
  | none ↦ some counts
  | some c ↦ some (set counts n ((c + 1) % 2 ^ 16))
]

-- The first loop of nextHuntSoulIndex. An index below 0 is a write in front of the array.
pub count_souls : List (Option SoulItem) → Map ℤ ℕ → List ℕ → Option (List ℕ)
count_souls souls [] counts = some counts
count_souls souls ((id, a) ∷ m) counts = do
  soul ← soul_at souls a
  counts' ← count_index (soul_index soul) counts
  count_souls souls m counts'

-- The second loop: the first counter that is 0, or the size.
pub first_zero : List ℕ → ℕ
first_zero [] = 0
first_zero (c ∷ counts) = let rest = suc (first_zero counts) in if c == 0 then 0 else rest

-- The loops, for the map's size as a `short`; with a negative size there is no array.
pub free_index : ℤ → List (Option SoulItem) → Map ℤ ℕ → Option ℕ
free_index (negsuc n) souls m = none
free_index (pos n) souls m = do
  counts ← count_souls souls m (replicate n 0)
  some (first_zero counts)

-- SoulsBag::nextHuntSoulIndex
unfoldable pub next_hunt_soul_index : SoulStore → Option ℕ
next_hunt_soul_index s =
    if length s.hunted == 0
    then some 0
    else free_index (int16 (pos (length s.hunted))) s.souls s.hunted

-- SoulsBag::isFull
unfoldable pub is_full : SoulStore → Bool
is_full s = leb max_hunt_souls_count (length s.hunted)

-- SoulsBag::addSoulItem
unfoldable pub add_soul_item : ℕ → SoulStore → Option SoulStore
add_soul_item a s = do
  soul ← soul_at s.souls a
  some (record s { hunted = insert soul.id a s.hunted })

-- SoulsBag::getSoul
unfoldable pub get_soul : SoulStore → ℤ → Option ℕ
get_soul s id = find id s.bag

-- SoulsBag::getHuntSoul
unfoldable pub get_hunt_soul : SoulStore → ℤ → Option ℕ
get_hunt_soul s id = find id s.hunted

-- SoulsBag::remove
unfoldable pub remove : ℕ → SoulStore → Option SoulStore
remove a s = do
  soul ← soul_at s.souls a
  let inside =
      leb_ℤ (pos 0) (soul_index soul) && ltb_ℤ (soul_index soul) (int32 (pos (length s.vect)))
  some (record s {
    bag = erase soul.id s.bag;
    vect = if inside then set_slot s.vect (soul_index soul) none else s.vect;
  })

-- SoulsBag::removeHuntedSoul
unfoldable pub remove_hunted_soul : ℕ → Bool → SoulStore → Option SoulStore
remove_hunted_soul a free s = do
  soul ← soul_at s.souls a
  some (record s {
    hunted = erase soul.id s.hunted;
    souls = if free then set s.souls a none else s.souls;
  })

-- SoulsBag::addEquipSoul
unfoldable pub add_equip_soul : ℕ → SoulStore → Option SoulStore
add_equip_soul a s = do
  soul ← soul_at s.souls a
  some (record s { equipped = insert soul.id a s.equipped })

-- SoulsBag::storeSoulItem
unfoldable pub store_soul_item : ℕ → SoulStore → Option (Bool × SoulStore)
store_soul_item a s = do
  let idx = first_empty s.vect
  if leb (length s.vect) idx then some (false, s) else do
    soul ← soul_at s.souls a
    some (
      true,
      record s {
        souls = set s.souls a (some (set_soul_index (pos idx) (set_soul_type in_bag_type soul)));
        hunted = erase soul.id s.hunted;
        vect = set s.vect idx (some a);
        bag = put soul.id a s.bag;
      },
    )
