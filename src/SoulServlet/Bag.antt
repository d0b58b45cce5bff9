-- ===== src/SoulServlet/Bag.antt =====
-- soul_item_servlet.cpp: the handlers that store, buy, equip and move souls.
use windnet_game.Prelude.{
  ℤ, pos, ◌+ℤ◌, ◌*ℤ◌, ◌==ℤ◌, ltb_ℤ, int16, int32, Bool, true, false, none, some, [], ◌∷◌,
  if◌then◌else◌, ℕ,
}
use windnet_game.Prelude.Outcome.{Outcome, ok, need, ◌>>=◌}
use windnet_game.SoulsBag.{
  set_soul_index, set_soul_type, get_soul, get_hunt_soul, remove, add_equip_soul, store_soul_item,
}
use windnet_game.Tables.{get_template}
use windnet_game.Session.{
  Player, Env, send, quiet, reply, error_body, success_body, buy_item_error_item_bag_full,
}
use windnet_game.Bson.{Object, get_int_val, body_of, int_value, set_string_val}
use windnet_game.SoulServlet.{
  page_of, place_in_page, with_souls, soul_of, write_soul, flush_soul, souls_count_per_page,
}

-- The answer of doStoreSoulItem: the soul was stored, or the bag is full.
unfoldable pub stored_reply : Bool → ℕ → Player → Outcome (Bool × Player)
stored_reply false a p = reply "PacketSoulMeta" (error_body buy_item_error_item_bag_full) p
stored_reply true a p = do
  p' ← flush_soul a p
  soul ← soul_of p' a
  reply "PacketSoulMeta"
      (body_of (
        ("SoulMetaId", int_value soul.soul_id)
        ∷ ("Id", int_value soul.id)
        ∷ ("Exp", int_value soul.exp)
        ∷ ("Page", int_value (page_of soul))
        ∷ ("Index", int_value (place_in_page soul))
        ∷ []))
      p'

-- SoulItemServlet::doStoreSoulItem
unfoldable pub do_store_soul_item : Object → Player → Outcome (Bool × Player)
do_store_soul_item request p = do
  id ← get_int_val "Id" request
  elim (get_hunt_soul p.souls id) [
    | none ↦ quiet p
    | some a ↦ do
      (stored, s) ← need (store_soul_item a p.souls)
      stored_reply stored a (record p { souls = s })
  ]

-- SoulItemServlet::doBuySoulItem, whose answer has no body.
unfoldable pub do_buy_soul_item : Env → Object → Player → Outcome (Bool × Player)
do_buy_soul_item env request p = do
  soul_item_id ← get_int_val "SoulMetaId" request
  buy_count ← get_int_val "Count" request
  elim (get_template env.item_tables soul_item_id) [
    | none ↦ quiet p
    | some it ↦
        if ltb_ℤ (int32 (it.price *ℤ buy_count)) p.role.money
        then quiet p
        else ok (true, send (set_string_val "Command" "BuySoulMeta" []) p)
  ]

-- SoulItem::SOUL_ITEM_TYPE_EQUIPPED
abbrev pub equipped_type : ℤ
equipped_type = pos 2

-- SoulItemServlet::doEquipSoulItem
unfoldable pub do_equip_soul_item : Object → Player → Outcome (Bool × Player)
do_equip_soul_item request p = do
  id ← get_int_val "Id" request
  idx ← get_int_val "Index" request
  elim (get_soul p.souls id) [
    | none ↦ quiet p
    | some a ↦ do
      soul ← soul_of p a
      if int16 soul.soul_type ==ℤ equipped_type then quiet p else do
        p₁ ← with_souls (remove a) p
        let p₂ = write_soul a (set_soul_type equipped_type (set_soul_index idx soul)) p₁
        p₃ ← with_souls (add_equip_soul a) p₂
        p₄ ← flush_soul a p₃
        reply "EquipSoulMeta" success_body p₄
  ]

-- SoulItemServlet::doMoveSoulItem: the page and the index are narrowed, then the place.
unfoldable pub do_move_soul_item : Object → Player → Outcome (Bool × Player)
do_move_soul_item request p = do
  id ← get_int_val "Id" request
  elim (get_soul p.souls id) [
    | none ↦ quiet p
    | some a ↦ do
      page ← get_int_val "Page" request
      idx ← get_int_val "Index" request
      soul ← soul_of p a
      let to_index = int16 (int16 page *ℤ pos souls_count_per_page +ℤ int16 idx)
      p' ← flush_soul a (write_soul a (set_soul_index to_index soul) p)
      reply "SoulMetaMove" success_body p'
  ]
