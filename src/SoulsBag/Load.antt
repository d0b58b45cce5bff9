-- ===== src/SoulsBag/Load.antt =====
-- SoulsBag::loadFromDB of souls_bag.cpp, on the rows that the database returns.
use windnet_game.Prelude.{
  ℕ, ℤ, pos, negsuc, ◌==ℤ◌, int16, Option, none, some, List, [], ◌∷◌, ◌++◌, length, set, resize,
  insert, int_key, ltb, if◌then◌else◌,
}
use windnet_game.Prelude.Fault.{◌>>=◌}
use windnet_game.Item.{ItemTemplate}
use windnet_game.SoulsBag.{
  SoulItem, SoulStore, soul_index, hunted_type, in_bag_type, deleted_type, bag_places,
}

-- The columns that are read.
pub record SoulRow : Type 0 where
  pub id : ℤ
  pub soul_id : ℤ
  pub idx : ℤ
  pub soul_type : ℤ
  pub exp : ℤ

unfoldable pub soul_of : ItemTemplate → SoulRow → SoulItem
soul_of it row = record {
  template = it;
  id = row.id;
  soul_id = row.soul_id;
  place = int16 row.idx;
  soul_type = int16 row.soul_type;
  exp = row.exp;
}

-- m_soulsVect[item->index()] = item, unless the index is too large; a negative one is a write in
-- front of the array.
unfoldable pub put_soul : ℤ → ℕ → List (Option ℕ) → Option (List (Option ℕ))
put_soul (negsuc n) a vect = none
put_soul (pos n) a vect = some (if ltb n (length vect) then set vect n (some a) else vect)

-- The part of the loop's body that files a soul by its type.
unfoldable pub load_soul : SoulItem → SoulStore → Option SoulStore
load_soul soul s =
    let a = length s.souls in
    let t = record s { souls = s.souls ++ some soul ∷ [] } in
    if soul.soul_type ==ℤ hunted_type
    then some (record t { hunted = insert soul.id a s.hunted })
    else if soul.soul_type ==ℤ in_bag_type
    then elim (put_soul (soul_index soul) a s.vect) [
      | none ↦ none
      | some vect ↦ some (record t { bag = insert soul.id a s.bag; vect = vect })
    ]
    else some (record t { equipped = insert soul.id a s.equipped })

-- The loop. `get_template` stands for ItemTemplateManager::get.
unfoldable pub load_souls : (ℤ → Option ItemTemplate) → List SoulRow → SoulStore → Option SoulStore
load_souls get_template [] s = some s
load_souls get_template (row ∷ rows) s = elim (get_template row.soul_id) [
  | none ↦ load_souls get_template rows s
  | some it ↦
      if int16 row.soul_type ==ℤ deleted_type
      then load_souls get_template rows s
      else load_soul (soul_of it row) s >>= load_souls get_template rows
]

-- SoulsBag::loadFromDB
unfoldable pub load_souls_from_db :
    (ℤ → Option ItemTemplate) → List SoulRow → SoulStore → Option SoulStore
load_souls_from_db get_template rows s =
    load_souls get_template rows (record s { vect = resize s.vect bag_places none })
