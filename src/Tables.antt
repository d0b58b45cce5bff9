-- ===== src/Tables.antt =====
-- dataset/item_template_manager.h and .cpp, dataset/soul_item_template.h and .cpp, and randInt of
-- util.cpp: the tables of the game's data. The rows are those that the CSV reader gives; nothing
-- writes to a table after the server's start, so a pointer into one is the value itself. What rand()
-- gives is an argument.
pub mod Rows
use windnet_game.Prelude.{
  ℕ, zero, suc, ◌+◌, ◌%◌, ◌^◌, ℤ, pos, negsuc, ◌+ℤ◌, ◌-ℤ◌, ◌==ℤ◌, ltb_ℤ, leb_ℤ, int16, int32,
  pos_part, neg_part, Bool, ◌&&◌, Option, none, some, List, [], ◌∷◌, ◌++◌, length, get_elem?, set,
  resize, Map, find, put, insert, lower_bound, upper_bound, int_key, leb, ltb, if◌then◌else◌,
}
use windnet_game.Prelude.Fault.{◌>>=◌}
use windnet_game.Item.{ItemTemplate}

-- randInt(from, to), where `r` is what rand() gives.
unfoldable pub rand_int : ℕ → ℤ → ℤ → ℤ
rand_int r from to =
    let width = int32 (to -ℤ from) in
    if from ==ℤ to then from else int32 (from +ℤ pos (r % (pos_part width + neg_part width)))

-- ItemTemplateManager
pub record ItemTables : Type 0 where
  pub items : Map ℤ ItemTemplate
  pub equip_strength : Map ℤ (List ℤ)
  pub soul_items : Map ℤ (List ItemTemplate)

-- ItemTemplateManager::get
unfoldable pub get_template : ItemTables → ℤ → Option ItemTemplate
get_template t id = find id t.items

-- A place of a vector that is there: `[]` outside it is a fault, `at` throws.
abbrev pub place_of {ℓ} : {A : Type ℓ} → List A → ℤ → Option A
place_of xs (pos n) = get_elem? xs n
place_of xs (negsuc n) = none

-- What getStrengthEquipMoney returns, and the quality and the level that it leaves in its references.
pub record StrengthMoney : Type 0 where
  pub equip_money : ℤ
  pub new_quality : ℤ
  pub new_level : ℤ

-- The part of getStrengthEquipMoney behind its first test; `none` is the exception of `at`.
unfoldable pub strength_money : Map ℤ (List ℤ) → ℤ → ℤ → Option StrengthMoney
strength_money table quality level = elim (find quality table) [
  | none ↦ some (record { equip_money = negsuc 0; new_quality = quality; new_level = level })
  | some vect ↦
      if leb_ℤ (int32 (pos (length vect))) (level +ℤ pos 1)
      then elim (find (int16 (quality +ℤ pos 1)) table) [
        | none ↦ some (record {
          equip_money = negsuc 0;
          new_quality = int16 (quality +ℤ pos 1);
          new_level = pos 1;
        })
        | some v ↦ some (record {
          equip_money = elim (get_elem? v 1) [ none ↦ negsuc 0 | some money ↦ money ];
          new_quality = int16 (quality +ℤ pos 1);
          new_level = pos 1;
        })
      ]
      else do
        money ← place_of vect (int16 (level +ℤ pos 1))
        some (record {
          equip_money = money;
          new_quality = quality;
          new_level = int16 (level +ℤ pos 1);
        })
]

-- ItemTemplateManager::getStrengthEquipMoney
unfoldable pub get_strength_equip_money : ItemTables → ℤ → ℤ → Option StrengthMoney
get_strength_equip_money t quality level =
    if quality ==ℤ pos 0
    then strength_money t.equip_strength (pos 1) (pos 1)
    else strength_money t.equip_strength quality level

-- ItemTemplateManager::getRandomSoulItemByQuality: the outer `none` is a place outside the vector.
unfoldable pub get_random_soul_item_by_quality : ItemTables → ℕ → ℤ → Option (Option ItemTemplate)
get_random_soul_item_by_quality t r quality = elim (find quality t.soul_items) [
  | none ↦ some none
  | some [] ↦ some none
  | some (x ∷ vect) ↦ do
    it ← place_of (x ∷ vect) (rand_int r (pos 0) (int32 (pos (length (x ∷ vect)))))
    some (some it)
]

-- SoulHuntInfo. The rate is how many of the doubles 0 / 100.0, 1 / 100.0, …, 99 / 100.0, which are
-- what randDouble gives, are less than it.
pub record SoulHuntInfo : Type 0 where
  pub money_need : ℤ
  pub level_need : ℤ
  pub soul_value : ℤ
  pub level_up_rate : ℕ
  pub rand_quality : Map ℤ ℤ

pub record SoulInfo : Type 0 where
  pub info_level : ℤ
  pub info_exp : ℤ
  pub swallow_exp : ℤ

-- SoulItemTemplate, with the two parts of a soulsInfoPair.
pub record SoulTables : Type 0 where
  pub souls_hunt_info : List (Option SoulHuntInfo)
  pub souls_info : List (List (Option SoulInfo) × Map ℤ SoulInfo)
  pub souls_exchange : Map ℤ ℤ

-- SoulItemTemplate::getSoulHuntInfo; both the null pointer in the vector and NULL are `none`.
unfoldable pub get_soul_hunt_info : SoulTables → ℤ → Option SoulHuntInfo
get_soul_hunt_info t id =
    if leb_ℤ (pos 1) id && ltb_ℤ id (int16 (pos (length t.souls_hunt_info)))
    then elim (place_of t.souls_hunt_info id) [ none ↦ none | some info ↦ info ]
    else none

-- The guards of the next two functions, as they are written.
abbrev refuses : ℤ → ℕ → Bool
refuses i size = ltb_ℤ i (pos 1) && leb_ℤ (int16 (pos size)) i

-- SoulItemTemplate::getSoulInfo: the outer `none` is a place outside a vector.
unfoldable pub get_soul_info : SoulTables → ℤ → ℤ → Option (Option SoulInfo)
get_soul_info t quality level = if refuses quality (length t.souls_info) then some none else do
  (vect, exps) ← place_of t.souls_info quality
  if refuses level (length vect) then some none else place_of vect level

-- SoulItemTemplate::getLevelByExp
unfoldable pub get_level_by_exp : SoulTables → ℤ → ℤ → Option ℤ
get_level_by_exp t quality exp =
    if refuses quality (length t.souls_info) then some (negsuc 0) else do
      (vect, exps) ← place_of t.souls_info quality
      some (elim (lower_bound exp exps) [ none ↦ negsuc 0 | some (e, info) ↦ info.info_level ])

-- SoulItemTemplate::getSoulIdBySoulValue
unfoldable pub get_soul_id_by_soul_value : SoulTables → ℤ → ℤ
get_soul_id_by_soul_value t value = elim (find value t.souls_exchange) [
  | none ↦ negsuc 0
  | some id ↦ id
]
