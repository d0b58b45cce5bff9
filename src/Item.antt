-- ===== src/Item.antt =====
-- item.h and item.cpp, with the structs of dataset/item_template_manager.h and the text of an
-- item's gems. Integers are ℤ: what is assigned to an `int` or a `short` is wrapped by `int32` or
-- `int16`. An object is a record; which objects are shared is the business of ItemBag.antt.
pub mod Gems
pub mod Adding
mod Tests
use windnet_game.Prelude.{
  ◌==◌, String, ℕ, zero, suc, ◌+◌, ◌-◌, ◌/◌, ◌%◌, ◌^◌, ℤ, pos, negsuc, ◌+ℤ◌, ◌==ℤ◌, leb_ℤ, ltb_ℤ,
  int16, int32, pos_part, Bool, true, false, ◌&&◌, not, Option, none, some, List, [], ◌∷◌, ◌++◌,
  length, get_elem?, set, resize, ltb, if◌then◌else◌,
}

-- Dataset::ItemTemplate, without the pointer to the attributes. A template is never written after
-- the server's start, so a pointer to one is the template itself.
pub record ItemTemplate : Type 0 where
  pub item_id : ℤ
  pub price : ℤ
  pub equip_type : ℤ
  pub item_type : ℤ
  pub item_use_level : ℤ
  pub profession : ℤ
  pub quality : ℤ
  pub stack_num : ℤ
  pub strength_next_level_id : ℤ
  pub strength_level : ℤ
  pub corresponding_exp : ℤ

pub record Gem : Type 0 where
  pub id : ℤ
  pub gem_id : ℤ
  pub pos_in_item : ℤ
  pub exp : ℤ

abbrev pub item_state_normal : ℤ
item_state_normal = pos 0

abbrev pub item_state_deleted : ℤ
item_state_deleted = pos 100

-- The fields of `m_item` are those of the message in warrior.proto, each an `int32`.
pub record Item : Type 0 where
  pub template : ItemTemplate
  pub global_id : ℤ
  pub role_id : ℤ
  pub item_id : ℤ
  pub item_num : ℤ
  pub item_index : ℤ
  pub item_level : ℤ
  pub item_state : ℤ
  pub item_quality : ℤ
  pub equipped : Bool
  pub gems : List (Option Gem)

-- The getters and setters that narrow.
abbrev pub number : Item → ℤ
number it = int16 it.item_num

abbrev pub set_number : ℤ → Item → Item
set_number val it = record it { item_num = int16 val }

unfoldable pub add_num : ℤ → Item → Item
add_num val it = record it { item_num = int32 (number it +ℤ int16 val) }

abbrev pub index : Item → ℤ
index it = int16 it.item_index

abbrev pub set_index : ℤ → Item → Item
set_index val it = record it { item_index = int16 val }

abbrev pub set_state : ℤ → Item → Item
set_state val it = record it { item_state = int16 val }

-- A new item: the message's fields are 0, and no gem is set.
unfoldable pub create_item : ItemTemplate → ℤ → ℤ → Item
create_item it role_id item_num = record {
  template = it;
  global_id = pos 0;
  role_id = role_id;
  item_id = it.item_id;
  item_num = int16 item_num;
  item_index = pos 0;
  item_level = pos 0;
  item_state = pos 0;
  item_quality = pos 0;
  equipped = false;
  gems = [];
}

-- A slot that is there and not null.
abbrev occupied : Option (Option Gem) → Bool
occupied (some (some g)) = true
occupied _ = false

-- m_gems[at], guarded by `at < size`: the outer option is the guard.
abbrev gem_at : List (Option Gem) → ℤ → Option (Option Gem)
gem_at gems (pos n) = get_elem? gems n
gem_at gems (negsuc n) = none

-- The write `m_gems[gem->pos] = gem` after the resize. A negative `pos` passes both tests, and the
-- write is in front of the array: `none`.
place_gem : List (Option Gem) → ℤ → Gem → Option (List (Option Gem))
place_gem gems (negsuc n) g = none
place_gem gems (pos n) g =
    let grown = if ltb n (length gems) then gems else resize gems (suc n) none in
    some (set grown n (some g))

-- Item::addGem. The outer `none` is a fault; the inner one the result `false`.
unfoldable pub add_gem : Gem → Item → Option (Option Item)
unfolding place_gem
add_gem g it =
    if occupied (gem_at it.gems g.pos_in_item)
    then some none
    else elim (place_gem it.gems g.pos_in_item g) [
      | none ↦ none
      | some gems ↦ some (some (record it { gems = gems }))
    ]

-- Item::getGemById: the position of the gem.
unfoldable pub get_gem_by_id : List (Option Gem) → ℤ → Option ℕ
get_gem_by_id [] dbid = none
get_gem_by_id (none ∷ gems) dbid = elim (get_gem_by_id gems dbid) [
  | none ↦ none
  | some i ↦ some (suc i)
]
get_gem_by_id (some g ∷ gems) dbid =
    let rest = get_gem_by_id gems dbid in
    if g.id ==ℤ dbid then some 0 else elim rest [ none ↦ none | some i ↦ some (suc i) ]

-- The decimal digits of a number below 10 ^ fuel.
abbrev pub print_nat : ℕ → ℕ → List ℕ
print_nat zero n = []
print_nat (suc fuel) n =
    let rest = print_nat fuel (n / 10) ++ (48 + n % 10) ∷ [] in
    if ltb n 10 then (48 + n) ∷ [] else rest

-- ss << an `int`: ten digits are enough.
pub print_int : ℤ → List ℕ
print_int (pos n) = print_nat 10 n
print_int (negsuc n) = b'-' ∷ print_nat 10 (suc n)

-- ss << a `char`: the byte itself.
abbrev pub print_char : ℤ → List ℕ
print_char (pos n) = n % 256 ∷ []
print_char (negsuc n) = (255 - n % 256) ∷ []

-- ss << id << ',' << gemId << ',' << pos << ',' << exp
abbrev pub gem_text : Gem → List ℕ
gem_text g =
    print_int g.id
    ++ (b','
        ∷ (print_int g.gem_id ++ (b',' ∷ (print_char g.pos_in_item ++ (b',' ∷ print_int g.exp)))))

-- The loop of flushToDB over the gems. `none` is the use of a null pointer.
unfoldable pub print_gems : List (Option Gem) → Option (List ℕ)
print_gems [] = some []
print_gems (none ∷ gems) = none
print_gems (some g ∷ gems) = elim (print_gems gems) [
  | none ↦ none
  | some rest ↦ some (gem_text g ++ rest)
]

-- str.resize(str.size() - 1), if it is not empty.
abbrev pub drop_last : List ℕ → List ℕ
drop_last [] = []
drop_last (x ∷ []) = []
drop_last (x ∷ y ∷ xs) = x ∷ drop_last (y ∷ xs)

-- What a %s takes of a text: the bytes in front of the first that is 0.
abbrev pub c_str : List ℕ → List ℕ
c_str [] = []
c_str (x ∷ xs) = let rest = c_str xs in if x == 0 then [] else x ∷ rest

-- An SQL statement with its arguments.
pub data Statement : Type 0 where
  insert_item : ℤ → ℤ → ℤ → ℤ → Statement
  update_item : ℤ → ℤ → ℤ → ℤ → ℤ → ℤ → List ℕ → ℤ → Statement
  insert_soul : ℤ → ℤ → ℤ → ℤ → ℤ → Statement
  update_soul : ℤ → ℤ → ℤ → ℤ → ℤ → Statement
  update_role : ℤ → ℤ → ℤ → ℤ → ℤ → String → ℤ → ℤ → ℤ → ℤ → Statement

-- The update that flushToDB sends, with the text of the gems.
abbrev pub update_of : Item → List ℕ → Statement
update_of it text =
    update_item it.role_id (number it) (index it) (int16 it.item_state) (int16 it.item_level)
      (int16 it.item_quality) (c_str (drop_last text)) it.global_id

-- Item::flushToDB: the item, which is marked deleted if there are none of it, and the statement.
unfoldable pub flush_to_db : Item → Option (Item × Statement)
flush_to_db item =
    let it = if number item ==ℤ pos 0 then set_state item_state_deleted item else item in
    elim (print_gems item.gems) [ none ↦ none | some text ↦ some (it, update_of it text) ]

-- Item::flushNewToDB, where `executed` is whether the database took the statement and `auto_id` the
-- id that it gave.
unfoldable pub flush_new_to_db : Bool → ℤ → Item → Item × Statement
flush_new_to_db executed auto_id it = (
  (if executed then record it { global_id = auto_id } else it),
  insert_item it.role_id it.item_id (number it) (index it),
)
