-- ===== src/SoulServlet/Requests.antt =====
-- soul_item_servlet.cpp: doRequest.
use windnet_game.Prelude.{Bool, false, Option, none, some, String, find, string_key}
use windnet_game.Prelude.Outcome.{Outcome, ok}
use windnet_game.Dispatch.Routes
use windnet_game.Dispatch.Routes.{SoulHandler, soul_chain}
use windnet_game.Session.{Player, Env, with_player}
use windnet_game.Bson.{Object}
use windnet_game.SoulServlet.{do_load_soul_items, do_hunt_soul_item, do_get_equipped_souls}
use windnet_game.SoulServlet.Bag.{
  do_store_soul_item, do_buy_soul_item, do_equip_soul_item, do_move_soul_item,
}
use windnet_game.SoulServlet.Swallow.{do_swallow_soul_item, do_swallow_all}

unfoldable pub call_soul_handler : SoulHandler → Env → Object → Player → Outcome (Bool × Player)
call_soul_handler Routes.on_load_soul_items env request p = do_load_soul_items p
call_soul_handler Routes.on_hunt_soul_item env request p = do_hunt_soul_item env request p
call_soul_handler Routes.on_store_soul env request p = do_store_soul_item request p
call_soul_handler Routes.on_swallow_all env request p = do_swallow_all env p
call_soul_handler Routes.on_swallow_soul_item env request p = do_swallow_soul_item env request p
call_soul_handler Routes.on_move_soul_item env request p = do_move_soul_item request p
call_soul_handler Routes.on_buy_soul_item env request p = do_buy_soul_item env request p
call_soul_handler Routes.on_equip_soul_item env request p = do_equip_soul_item request p
call_soul_handler Routes.on_get_equipped_souls env request p = do_get_equipped_souls p

-- SoulItemServlet::doRequest, where `none` is a session without a role.
unfoldable pub do_soul_request :
    Env → String → Object → Option Player → Outcome (Bool × Option Player)
do_soul_request env type request none = ok (false, none)
do_soul_request env type request (some p) = elim (find type soul_chain) [
  | none ↦ ok (false, some p)
  | some handler ↦ with_player (call_soul_handler handler env request p)
]
