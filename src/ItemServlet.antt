-- ===== src/ItemServlet.antt =====
-- item_servlet.cpp: the handlers of the requests about a role's items. A handler takes the request's
-- body and the session's state; it gives what the source returns and the new state. Tokens, and the
-- text that goes to standard output, are left out.
pub mod Strengthen
pub mod Climbing
pub mod Levels
pub mod Bag
pub mod Requests
pub mod Buying
pub mod Selling
mod Tests
use windnet_game.Prelude.{
  ℕ, zero, suc, ℤ, pos, ◌+ℤ◌, ◌-ℤ◌, ◌*ℤ◌, ◌==ℤ◌, ltb_ℤ, int16, int32, Bool, true, false, Option,
  none, some, List, [], ◌∷◌, ◌++◌, length, String, if◌then◌else◌, find, string_key,
}
use windnet_game.Prelude.Outcome.{Outcome, ok, need, ◌>>=◌}
use windnet_game.Item.{
  Item, ItemTemplate, number, index, set_state, item_state_deleted, create_item, flush_new_to_db,
}
use windnet_game.ItemBag.{Store, get, add_item, remove_item, move_item, deref, modify, flush}
use windnet_game.Tables.{get_template}
use windnet_game.Role.{Role, set_money, add_money}
use windnet_game.Session.{
  Player, Env, send, execute, save_role, with_role, with_bag, quiet, reply, error_body,
  success_body, buy_item_error_item_bag_full, buy_item_error_no_enough_money,
}
use windnet_game.Bson.{Object, get_int_val, body_of, int_value, bool_value}

-- ItemBag::isFull
abbrev pub bag_is_full : Store → Bool
bag_is_full s = false

-- A new object at the end of the heap.
abbrev pub allocate : Item → Player → Player
allocate item p = record p { bag = record (p.bag) { heap = p.bag.heap ++ item ∷ [] } }

-- The part of doBuyItem behind its tests.
unfoldable pub bought : Env → ItemTemplate → ℤ → ℤ → Player → Outcome (Bool × Player)
bought env it count money_need p = do
  let paid = save_role (with_role (set_money (int32 (p.role.money -ℤ money_need))) p)
  let (item, statement) =
      flush_new_to_db env.executed env.auto_id (create_item it p.role_info_id (int16 count))
  let a = length paid.bag.heap
  p' ← with_bag (add_item a) (execute statement (allocate item paid))
  new ← need (deref p'.bag a)
  reply "BuyPropFromBodyShop"
      (body_of (
        ("Silver", int_value p'.role.money)
        ∷ ("Id", int_value new.global_id)
        ∷ ("PropId", int_value new.item_id)
        ∷ ("Index", int_value (index new))
        ∷ ("Count", int_value (number new))
        ∷ []))
      p'

-- ItemServlet::doBuyItem
unfoldable pub do_buy_item : Env → Object → Player → Outcome (Bool × Player)
do_buy_item env request p = do
  item_id ← get_int_val "Id" request
  count ← get_int_val "Count" request
  elim (get_template env.item_tables item_id) [
    | none ↦ quiet p
    | some it ↦
        let money_need = int32 (it.price *ℤ count) in
        if ltb_ℤ p.role.money money_need
        then reply "BuyPropFromBodyShop" (error_body buy_item_error_no_enough_money) p
        else if bag_is_full p.bag
        then reply "BuyPropFromBodyShop" (error_body buy_item_error_item_bag_full) p
        else bought env it count money_need p
  ]

-- ItemServlet::doSellItem
unfoldable pub do_sell_item : Object → Player → Outcome (Bool × Player)
do_sell_item request p = do
  id ← get_int_val "Id" request
  elim (get p.bag id) [
    | none ↦ quiet p
    | some a ↦ do
      item ← need (deref p.bag a)
      let price = int32 (item.template.price *ℤ number item)
      let paid = save_role (with_role (add_money price) p)
      p₁ ← with_bag (modify a (set_state item_state_deleted)) paid
      p₂ ← with_bag (flush a) p₁
      p₃ ← with_bag (remove_item a false) p₂
      reply "SaleProps"
          (body_of (("Silver", int_value p₃.role.money) ∷ ("Success", bool_value true) ∷ [])) p₃
  ]
