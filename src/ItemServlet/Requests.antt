-- ===== src/ItemServlet/Requests.antt =====
-- item_servlet.cpp: doRequest.
use windnet_game.Prelude.{Bool, false, Option, none, some, String, find, string_key}
use windnet_game.Prelude.Outcome.{Outcome, ok}
use windnet_game.Dispatch.Routes
use windnet_game.Dispatch.Routes.{ItemHandler, item_chain}
use windnet_game.Session.{Player, Env, with_player}
use windnet_game.Bson.{Object}
use windnet_game.ItemServlet.{do_buy_item, do_sell_item}
use windnet_game.ItemServlet.Bag.{
  do_load_items, do_add_item, do_abandon_item, do_equip_item, do_un_equip_item, do_sort_items,
  do_move_item, do_get_equipments, do_get_equip_gems, do_get_strength_equip_info,
}
use windnet_game.ItemServlet.Strengthen.{do_strength_item}

unfoldable pub call_item_handler : ItemHandler → Env → Object → Player → Outcome (Bool × Player)
call_item_handler Routes.on_load_items env request p = do_load_items p
call_item_handler Routes.on_buy_item env request p = do_buy_item env request p
call_item_handler Routes.on_append_item env request p = do_add_item p
call_item_handler Routes.on_abandon_item env request p = do_abandon_item request p
call_item_handler Routes.on_equip_item env request p = do_equip_item request p
call_item_handler Routes.on_un_equip_item env request p = do_un_equip_item request p
call_item_handler Routes.on_sort_package env request p = do_sort_items env p
call_item_handler Routes.on_move_props env request p = do_move_item request p
call_item_handler Routes.on_strength_item env request p = do_strength_item env request p
call_item_handler Routes.on_sell_item env request p = do_sell_item request p
call_item_handler Routes.on_get_equipments env request p = do_get_equipments p
call_item_handler Routes.on_get_equip_gems env request p = do_get_equip_gems p
call_item_handler Routes.on_get_strength_equip_info env request p =
    do_get_strength_equip_info request p

-- ItemServlet::doRequest, where `none` is a session without a role.
unfoldable pub do_item_request :
    Env → String → Object → Option Player → Outcome (Bool × Option Player)
do_item_request env type request none = ok (false, none)
do_item_request env type request (some p) = elim (find type item_chain) [
  | none ↦ ok (false, some p)
  | some handler ↦ with_player (call_item_handler handler env request p)
]
