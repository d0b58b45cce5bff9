-- ===== src/SoulServlet.antt =====
-- soul_item_servlet.cpp: the handlers of the requests about souls, but for those that swallow, and
-- that store, buy, equip and move, which stand in SoulServlet/Swallow.antt and SoulServlet/Bag.antt. A handler takes the request's body and the session's state.
pub mod Bag
pub mod Swallow
pub mod Hunting
pub mod Requests
pub mod Swallowing
mod Tests
use windnet_game.Prelude.{
  ℕ, zero, suc, ◌+◌, ◌-◌, ◌/◌, ◌%◌, ◌^◌, ℤ, pos, negsuc, ◌+ℤ◌, ◌-ℤ◌, ◌*ℤ◌, ◌==ℤ◌, ltb_ℤ, leb_ℤ,
  int16, int32, Bool, true, false, ◌&&◌, Option, none, some, List, [], ◌∷◌, ◌++◌, length, String,
  if◌then◌else◌, Map, set, upper_bound, int_key, ltb,
}
use windnet_game.Prelude.Outcome.{Outcome, ok, need, ◌>>=◌}
use windnet_game.Item.{ItemTemplate, Statement}
use windnet_game.SoulsBag.{
  SoulItem, SoulStore, create_soul, soul_index, set_soul_index, set_soul_type, flush_soul_to_db,
  flush_new_soul_to_db, next_hunt_soul_index, is_full, add_soul_item, get_soul, get_hunt_soul,
  remove, add_equip_soul, store_soul_item, soul_at,
}
use windnet_game.Tables.{
  SoulHuntInfo, get_template, get_soul_hunt_info, get_random_soul_item_by_quality, rand_int,
}
use windnet_game.Role.{Role, level, souls_index, add_money, add_souls_value, add_souls_index}
use windnet_game.Session.{
  Player, Env, send, execute, save_role, with_role, quiet, reply, error_body, success_body,
  buy_item_error_item_bag_full, error_no_enough_money,
}
use windnet_game.Bson.{
  Object, get_int_val, body_of, int_value, set_array_val, set_int_val, set_string_val,
}

abbrev pub souls_count_per_page : ℕ
souls_count_per_page = 12

-- The `/` and the `%` of C, which round towards 0.
abbrev pub div_ℤ : ℤ → ℕ → ℤ
div_ℤ (pos n) d = pos (n / d)
div_ℤ (negsuc n) d = pos 0 -ℤ pos (suc n / d)

abbrev pub mod_ℤ : ℤ → ℕ → ℤ
mod_ℤ (pos n) d = pos (n % d)
mod_ℤ (negsuc n) d = pos 0 -ℤ pos (suc n % d)

abbrev pub page_of : SoulItem → ℤ
page_of soul = div_ℤ (soul_index soul) souls_count_per_page

abbrev pub place_in_page : SoulItem → ℤ
place_in_page soul = mod_ℤ (soul_index soul) souls_count_per_page

-- A method of the bag, and a write to the soul at an address.
abbrev pub with_souls : (SoulStore → Option SoulStore) → Player → Outcome Player
with_souls f p = do s ← need (f p.souls); ok (record p { souls = s })

abbrev pub soul_of : Player → ℕ → Outcome SoulItem
soul_of p a = need (soul_at p.souls.souls a)

abbrev pub write_soul : ℕ → SoulItem → Player → Player
write_soul a soul p = record p {
  souls = record (p.souls) { souls = set p.souls.souls a (some soul) };
}

-- item->flushToDB
abbrev pub flush_soul : ℕ → Player → Outcome Player
flush_soul a p = do soul ← soul_of p a; ok (execute (flush_soul_to_db soul) p)

-- The loops of doLoadSoulItems and doGetEquippedSouls.
unfoldable pub soul_objects : (SoulItem → Object) → Map ℤ ℕ → Player → Outcome (List Object)
soul_objects show [] p = ok []
soul_objects show ((id, a) ∷ m) p = do
  soul ← soul_of p a
  objs ← soul_objects show m p
  ok (show soul ∷ objs)

abbrev pub soul_fields : SoulItem → Object
soul_fields soul = body_of (
    ("Id", int_value soul.id)
    ∷ ("SoulMetaId", int_value soul.soul_id)
    ∷ ("Index", int_value (soul_index soul))
    ∷ ("Exp", int_value soul.exp)
    ∷ [])

abbrev pub bag_soul_fields : SoulItem → Object
bag_soul_fields soul = body_of (
    ("Id", int_value soul.id)
    ∷ ("SoulMetaId", int_value soul.soul_id)
    ∷ ("Exp", int_value soul.exp)
    ∷ ("Page", int_value (page_of soul))
    ∷ ("Index", int_value (place_in_page soul))
    ∷ [])

-- SoulItemServlet::doLoadSoulItems
unfoldable pub do_load_soul_items : Player → Outcome (Bool × Player)
do_load_soul_items p = do
  hunted_souls ← soul_objects soul_fields p.souls.hunted p
  bag_souls ← soul_objects bag_soul_fields p.souls.bag p
  let head = body_of (
      ("SoulMetaOpen", int_value (souls_index p.role))
      ∷ ("SoulPoint", int_value p.role.souls_value)
      ∷ [])
  reply "SoulMetaInfo"
      (set_array_val "SoulMetaPacks" bag_souls (set_array_val "SoulMetas" hunted_souls head)) p

-- SoulItemServlet::doGetEquippedSouls
unfoldable pub do_get_equipped_souls : Player → Outcome (Bool × Player)
do_get_equipped_souls p = do
  array ← soul_objects soul_fields p.souls.equipped p
  reply "EquipSoulMetaInfo" (set_array_val "SoulMetas" array []) p

-- randQuality.rbegin()->first, which is not there in an empty map.
abbrev pub last_key : Map ℤ ℤ → Option ℤ
last_key [] = none
last_key ((k, v) ∷ []) = some k
last_key ((k, v) ∷ (j, w) ∷ m) = last_key ((j, w) ∷ m)

-- What a hunt costs and gives.
unfoldable pub pay_hunt : Env → SoulHuntInfo → Role → Role
pay_hunt env info role =
    let lucky =
      leb_ℤ info.level_need (level role)
      && ltb_ℤ (rand_int env.rand_level (pos 0) (pos 100)) (pos info.level_up_rate) in
    let risen = if lucky then add_souls_index (pos 1) role else role in
    add_souls_value info.soul_value (add_money (int32 (pos 0 -ℤ info.money_need)) risen)

-- The part of doHuntSoulItem behind the choice of the template: a new soul among the hunted ones.
unfoldable pub hunted : Env → SoulHuntInfo → ItemTemplate → Player → Outcome (Bool × Player)
hunted env info it p = do
  let paid = save_role (with_role (pay_hunt env info) p)
  idx ← need (next_hunt_soul_index paid.souls)
  let fresh = set_soul_index (pos idx) (record (create_soul it) { soul_id = it.item_id })
  let (soul, statement) = flush_new_soul_to_db env.executed env.auto_id paid.role.role_id fresh
  let a = length paid.souls.souls
  let p₁ = record paid {
    souls = record (paid.souls) { souls = paid.souls.souls ++ some soul ∷ [] };
  }
  p₂ ← with_souls (add_soul_item a) (execute statement p₁)
  reply "LotterySoulMeta"
      (body_of (
        ("Silver", int_value p₂.role.money)
        ∷ ("SoulMetaOpen", int_value (souls_index p₂.role))
        ∷ ("SoulPoint", int_value p₂.role.souls_value)
        ∷ ("SoulMetaId", int_value soul.soul_id)
        ∷ ("Id", int_value soul.id)
        ∷ ("Index", int_value (soul_index soul))
        ∷ []))
      p₂

-- The choice of a quality by its weight, and of a template of that quality; `none` where the source
-- gives up.
unfoldable pub choose_soul : Env → SoulHuntInfo → Outcome (Option ItemTemplate)
choose_soul env info = do
  heaviest ← need (last_key info.rand_quality)
  elim (upper_bound (int16 (rand_int env.rand_weight (pos 0) heaviest)) info.rand_quality) [
    | none ↦ ok none
    | some (weight, quality) ↦
        need (get_random_soul_item_by_quality env.item_tables env.rand_item quality)
  ]

abbrev or_else {ℓ} : {A : Type ℓ} → Option A → A → A
or_else none a = a
or_else (some b) a = b

-- SoulItemServlet::doHuntSoulItem
unfoldable pub do_hunt_soul_item : Env → Object → Player → Outcome (Bool × Player)
do_hunt_soul_item env request p = do
  id ← get_int_val "SoulMetaIndex" request
  elim (get_soul_hunt_info env.soul_tables (int16 id)) [
    | none ↦ quiet p
    | some here ↦
        let next = get_soul_hunt_info env.soul_tables (int16 (int32 (id +ℤ pos 1))) in
        let info = or_else next here in
        if ltb_ℤ p.role.money info.money_need
        then reply "LotterySoulMeta" (error_body error_no_enough_money) p
        else if is_full p.souls
        then reply "LotterySoulMeta" (error_body buy_item_error_item_bag_full) p
        else do
          chosen ← choose_soul env info
          elim chosen [ none ↦ quiet p | some it ↦ hunted env info it p ]
  ]
