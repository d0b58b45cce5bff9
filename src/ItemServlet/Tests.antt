-- ===== src/ItemServlet/Tests.antt =====
-- A concrete shop, a concrete sale and a concrete helmet.
use mathlib.Core.Option.{some-injective, some-ne-none}
use mathlib.Core.Path.{subst}
use windnet_game.Prelude.{
  ◌↔◌, zero, suc, sym, ℕ, ◌≡◌, ◌⊎◌, refl, pos, ◌+ℤ◌, ◌*ℤ◌, int16, int32, ltb_ℤ, true, false, none,
  some, [], ◌∷◌, get_elem?, set, find, put, insert, arith,
}
use windnet_game.Prelude.Outcome.{ok}
use windnet_game.Item.{ItemTemplate, Item, create_item, flush_new_to_db, number, print_gems}
use windnet_game.ItemBag.{get}
use windnet_game.ItemBag.Indexed.{IsPlaced, IsIndexed}
use windnet_game.SoulsBag.{init_souls}
use windnet_game.Tables.{ItemTables, get_template, get_strength_equip_money, strength_money}
use windnet_game.Role.{Role, not_below_0}
use windnet_game.Session.{Player, Env, reply, error_body, buy_item_error_no_enough_money}
use windnet_game.Bson.{Object, get_int_val, get_or_default, body_of, set_fields, int_value}
use windnet_game.ItemServlet.{do_buy_item, do_sell_item}
use windnet_game.ItemServlet.Buying.{HasBought, do_buy_item-HasBought}
use windnet_game.ItemServlet.Selling.{do_sell_item-once}
use windnet_game.ItemServlet.Climbing.{IsPaid}
use windnet_game.ItemServlet.Levels.{strength_loop-IsPaid}
use windnet_game.ItemServlet.Strengthen.{strength_loop, strengthened}

abbrev potion : ItemTemplate
potion = record {
  item_id = pos 7;
  price = pos 10;
  equip_type = pos 0;
  item_type = pos 2;
  item_use_level = pos 1;
  profession = pos 0;
  quality = pos 1;
  stack_num = pos 99;
  strength_next_level_id = pos 0;
  strength_level = pos 0;
  corresponding_exp = pos 0;
}

abbrev helmet : ItemTemplate
helmet = record potion { item_id = pos 100; equip_type = pos 1; strength_next_level_id = pos 101 }

abbrev tables : ItemTables
tables = record {
  items = (pos 7, potion) ∷ (pos 100, helmet) ∷ [];
  soul_items = [];
  equip_strength = (pos 1, pos 0 ∷ pos 10 ∷ pos 20 ∷ []) ∷ [];
}

abbrev env : Env
env = record {
  item_tables = tables;
  soul_tables = record { souls_hunt_info = []; souls_info = []; souls_exchange = [] };
  executed = true;
  auto_id = pos 900;
  now = 1400000000;
  later = 1400000000;
  rand_weight = 0;
  rand_item = 0;
  rand_level = 0;
}

abbrev hero : Role
hero = record {
  role_id = pos 4;
  role_profession = pos 1;
  money = pos 500;
  gold = pos 0;
  role_name = "william";
  role_level = pos 5;
  role_vip_level = pos 0;
  role_exp = pos 0;
  role_souls_index = pos 1;
  souls_value = pos 0;
}

-- Sixty potions, at place 1.
abbrev potions : Item
potions = record (create_item potion (pos 4) (pos 60)) { global_id = pos 500; item_index = pos 1 }

abbrev player : Player
player = record {
  role = hero;
  role_info_id = pos 4;
  bag = record {
    heap = potions ∷ [];
    last_sync_time = 0;
    item_map = (pos 500, 0) ∷ [];
    items = none ∷ some 0 ∷ none ∷ [];
    db = [];
  };
  souls = init_souls [];
  equips = [];
  sent = [];
}

player-IsIndexed : IsIndexed player.bag
unfolding create_item get find int16
player-IsIndexed = record { low = refl; placed = at_place }
  where
    at_place : (i a : ℕ) → get_elem? player.bag.items i ≡ some (some a) → IsPlaced player.bag i a
    at_place zero a e = absurd (some-ne-none a (some-injective _ _ (sym e)))
    at_place (suc zero) a e =
        subst (IsPlaced player.bag 1) (some-injective _ _ (some-injective _ _ e))
          (record { item = potions; there = refl; at = refl; mapped = refl })
    at_place (suc (suc zero)) a e = absurd (some-ne-none a (some-injective _ _ (sym e)))
    at_place (suc (suc (suc i))) a e = cc

abbrev buy_request : Object
buy_request = body_of (("Id", int_value (pos 7)) ∷ ("Count", int_value (pos 3)) ∷ [])

abbrev sell_request : Object
sell_request = body_of (("Id", int_value (pos 500)) ∷ [])

do_buy_item-HasBought_example :
    ((ltb_ℤ (pos 500) (int32 (pos 10 *ℤ pos 3)) ≡ true)
      × (do_buy_item env buy_request player
          ≡ reply "BuyPropFromBodyShop" (error_body buy_item_error_no_enough_money) player))
    ⊎ ((ltb_ℤ (pos 500) (int32 (pos 10 *ℤ pos 3)) ≡ false)
        × (p' : Player) × (do_buy_item env buy_request player ≡ ok (true, p'))
        × HasBought env potion (pos 3) (int32 (pos 10 *ℤ pos 3)) player p')
unfolding body_of set_fields insert put find get_int_val get_or_default get_template create_item
    flush_new_to_db get int16
do_buy_item-HasBought_example =
    do_buy_item-HasBought env buy_request potion (pos 7) (pos 3) player player-IsIndexed refl
      (omega arith) refl refl refl

do_sell_item-once_example :
    (p' : Player) × (do_sell_item sell_request player ≡ ok (true, p'))
    × (p'.role.money ≡ not_below_0 (int32 (pos 500 +ℤ int32 (pos 10 *ℤ number potions))))
    × IsIndexed p'.bag
    × (p'.bag.items ≡ set player.bag.items 1 none)
    × (do_sell_item sell_request p' ≡ ok (true, p'))
unfolding body_of set_fields insert put find get_int_val get_or_default create_item print_gems int16
do_sell_item-once_example =
    do_sell_item-once player sell_request 0 1 potions [] player-IsIndexed refl refl refl
      (omega arith) refl

strength_loop-IsPaid_example :
    (strength_loop tables hero 1 (pos 1) (pos 1) (pos 100) none (pos 0)
      ≡ ok (strengthened (pos 1) (pos 2) (some helmet) (pos 20)))
    ↔ IsPaid tables hero 1
        (pos 1)
        (pos 1)
        (pos 100)
        none
        (pos 0)
        (pos 1)
        (pos 2)
        (some helmet)
        (pos 20)
strength_loop-IsPaid_example =
    strength_loop-IsPaid tables hero 1 (pos 1) (pos 1) (pos 100) (pos 0) none (pos 1) (pos 2)
      (pos 20) (some helmet)

-- The loop ends so on these tables.
one_level :
    strength_loop tables hero 1 (pos 1) (pos 1) (pos 100) none (pos 0)
    ≡ ok (strengthened (pos 1) (pos 2) (some helmet) (pos 20))
unfolding strength_loop get_strength_equip_money strength_money get_template find int16 int32 ◌+ℤ◌
one_level = refl
