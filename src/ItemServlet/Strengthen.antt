-- ===== src/ItemServlet/Strengthen.antt =====
-- item_servlet.cpp: doStrengthItem. The loop runs as often as the request says.
use windnet_game.Prelude.{
  ℕ, zero, suc, ℤ, pos, negsuc, ◌+ℤ◌, ◌-ℤ◌, ◌==ℤ◌, ltb_ℤ, int16, int32, pos_part, Bool, Option,
  none, some, [], ◌∷◌, if◌then◌else◌,
}
use windnet_game.Prelude.Outcome.{Outcome, thrown, ok, need, ◌>>=◌}
use windnet_game.Item.{Item, ItemTemplate}
use windnet_game.ItemBag.{get, deref, modify, flush}
use windnet_game.Tables.{ItemTables, get_template, get_strength_equip_money}
use windnet_game.Role.{Role, level, set_money}
use windnet_game.Session.{
  Player, Env, with_bag, with_role, quiet, reply, error_body, buy_item_error_no_enough_money,
  strength_equip_error_fail, strength_equip_error_role_level_to_high,
}
use windnet_game.Bson.{Object, get_int_val, body_of, int_value}

-- How the loop ends: at an error, at a template that is missing, or with the locals quality, level,
-- newItemTemp and moneyNeed.
pub data StrengthEnd : Type 0 where
  failed : ℤ → StrengthEnd
  missing : StrengthEnd
  strengthened : ℤ → ℤ → Option ItemTemplate → ℤ → StrengthEnd

-- A call that throws.
abbrev pub throws {ℓ} : {A : Type ℓ} → Option A → Outcome A
throws none = thrown
throws (some a) = ok a

unfoldable pub strength_loop :
    ItemTables → Role → ℕ → ℤ → ℤ → ℤ → Option ItemTemplate → ℤ → Outcome StrengthEnd
strength_loop t role zero quality lvl next new money_need =
    ok (strengthened quality lvl new money_need)
strength_loop t role (suc n) quality lvl next new money_need = do
  m ← throws (get_strength_equip_money t quality lvl)
  let total = int32 (money_need +ℤ m.equip_money)
  if m.equip_money ==ℤ negsuc 0
      then ok (failed strength_equip_error_fail)
      else if ltb_ℤ (level role) m.new_level
      then ok (failed strength_equip_error_role_level_to_high)
      else if ltb_ℤ role.money total
      then ok (failed buy_item_error_no_enough_money)
      else elim (get_template t next) [
        | none ↦ ok missing
        | some it ↦
            strength_loop t role n m.new_quality m.new_level it.strength_next_level_id (some it)
              total
      ]

-- The writes to the item, each through its setter.
abbrev pub set_strength : ℤ → ℤ → ItemTemplate → Item → Item
set_strength quality lvl it item = record item {
  template = it;
  item_id = it.item_id;
  item_quality = int16 quality;
  item_level = int16 lvl;
}

-- The part of doStrengthItem behind its loop. The answer names the item's old template.
unfoldable pub strength_end : ℤ → ℕ → ItemTemplate → StrengthEnd → Player → Outcome (Bool × Player)
strength_end equip_id a old (failed error) p = reply "StrengProps" (error_body error) p
strength_end equip_id a old missing p = quiet p
strength_end equip_id a old (strengthened quality lvl new money_need) p = do
  let paid = with_role (set_money (int32 (p.role.money -ℤ money_need))) p
  it ← need new
  p₁ ← with_bag (modify a (set_strength quality lvl it)) paid
  p₂ ← with_bag (flush a) p₁
  item ← need (deref p₂.bag a)
  reply "StrengProps"
      (body_of (
        ("Id", int_value equip_id)
        ∷ ("PropId", int_value old.item_id)
        ∷ ("Quality", int_value (int16 item.item_quality))
        ∷ ("Level", int_value (int16 item.item_level))
        ∷ ("Silver", int_value p₂.role.money)
        ∷ []))
      p₂

-- ItemServlet::doStrengthItem
unfoldable pub do_strength_item : Env → Object → Player → Outcome (Bool × Player)
do_strength_item env request p = do
  equip_id ← get_int_val "Id" request
  count ← get_int_val "Count" request
  elim (get p.bag equip_id) [
    | none ↦ quiet p
    | some a ↦ do
      item ← need (deref p.bag a)
      end ←
          strength_loop env.item_tables p.role (pos_part count) (int16 item.item_quality)
            (int16 item.item_level) item.template.strength_next_level_id none (pos 0)
      strength_end equip_id a item.template end p
  ]
