-- ===== src/Tables/Rows.antt =====
-- The loops of ItemTemplateManager::init and SoulItemTemplate::init over the rows that were read.
use windnet_game.Prelude.{
  suc, ℤ, pos, negsuc, ◌==ℤ◌, ◌&&◌, Option, none, some, List, [], ◌∷◌, ◌++◌, length, set, resize,
  find, put, insert, int_key, leb, if◌then◌else◌,
}
use windnet_game.Item.{ItemTemplate}
use windnet_game.Tables.{ItemTables, SoulTables, SoulHuntInfo}

-- ITEM_TYPE_SOUL
abbrev pub item_type_soul : ℤ
item_type_soul = pos 10

-- A row of items.csv: the first row of an id is the one that stays, and every soul of the first level
-- is one that can be hunted.
unfoldable pub add_template : ItemTemplate → ItemTables → ItemTables
add_template it t = record t {
  items = insert it.item_id it t.items;
  soul_items =
      if it.item_type ==ℤ item_type_soul && it.strength_level ==ℤ pos 1
      then elim (find it.quality t.soul_items) [
        | none ↦ put it.quality (it ∷ []) t.soul_items
        | some vect ↦ put it.quality (vect ++ it ∷ []) t.soul_items
      ]
      else t.soul_items;
}

unfoldable pub add_templates : List ItemTemplate → ItemTables → ItemTables
add_templates [] t = t
add_templates (it ∷ its) t = add_templates its (add_template it t)

abbrev vector_of : Option (List ℤ) → List ℤ
vector_of none = []
vector_of (some vect) = vect

-- A row of equip_strength.csv: a level below 0 fails, since `at` throws.
unfoldable pub add_strength : ℤ → ℤ → ℤ → ItemTables → Option ItemTables
add_strength quality (negsuc n) money t = none
add_strength quality (pos level) money t =
    let vect = vector_of (find quality t.equip_strength) in
    let grown = if leb (length vect) level then resize vect (suc level) (pos 0) else vect in
    some (record t { equip_strength = put quality (set grown level money) t.equip_strength })

-- A row of souls_hunt.csv: an id below 0 is a write in front of the vector.
unfoldable pub add_hunt_info : ℤ → SoulHuntInfo → SoulTables → Option SoulTables
add_hunt_info (negsuc n) info t = none
add_hunt_info (pos id) info t =
    let grown =
      if leb (length t.souls_hunt_info) id
      then resize t.souls_hunt_info (suc id) none
      else t.souls_hunt_info in
    some (record t { souls_hunt_info = set grown id (some info) })

-- A row of souls_shop.csv.
unfoldable pub add_exchange : ℤ → ℤ → SoulTables → SoulTables
add_exchange value id t = record t { souls_exchange = put value id t.souls_exchange }
