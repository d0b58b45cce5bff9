-- ===== src/SoulServlet/Tests.antt =====
-- Two hunted souls that can be swallowed.
use windnet_game.Prelude.{◌≡◌, ◌⊎◌, refl, pos, true, none, some, [], ◌∷◌, replicate, find}
use windnet_game.Prelude.Outcome.{fault, ok}
use windnet_game.Item.{ItemTemplate}
use windnet_game.SoulsBag.{SoulItem, create_soul}
use windnet_game.Tables.{SoulInfo, SoulHuntInfo}
use windnet_game.Session.{Player, Env}
use windnet_game.Bson.{Object, body_of, int_value}
use windnet_game.SoulServlet.Swallow.{do_swallow_all}
use windnet_game.SoulServlet.Swallowing.{do_swallow_all-nothing}

abbrev spirit : ItemTemplate
spirit = record {
  item_id = pos 20001;
  price = pos 10;
  equip_type = pos 0;
  item_type = pos 10;
  item_use_level = pos 1;
  profession = pos 0;
  quality = pos 1;
  stack_num = pos 0;
  strength_next_level_id = pos 0;
  strength_level = pos 0;
  corresponding_exp = pos 0;
}

abbrev first_soul : SoulItem
first_soul = record (create_soul spirit) { id = pos 9; soul_id = pos 20001 }

abbrev one : SoulInfo
one = record { info_level = pos 1; info_exp = pos 100; swallow_exp = pos 20 }

abbrev env : Env
env = record {
  item_tables = record { items = []; soul_items = []; equip_strength = [] };
  soul_tables = record {
    souls_hunt_info = [];
    souls_info = ([], []) ∷ (none ∷ some one ∷ [], (pos 100, one) ∷ []) ∷ [];
    souls_exchange = [];
  };
  executed = true;
  auto_id = pos 900;
  now = 1400000000;
  later = 1400000000;
  rand_weight = 0;
  rand_item = 0;
  rand_level = 0;
}

abbrev player : Player
player = record {
  role = record {
    role_id = pos 4;
    role_profession = pos 1;
    money = pos 500;
    gold = pos 0;
    role_name = "william";
    role_level = pos 5;
    role_vip_level = pos 0;
    role_exp = pos 0;
    role_souls_index = pos 1;
    souls_value = pos 0;
  };
  role_info_id = pos 4;
  bag = record { heap = []; last_sync_time = 0; item_map = []; items = []; db = [] };
  souls = record {
    souls = some first_soul ∷ some (record first_soul { id = pos 11; place = pos 2 }) ∷ [];
    hunted = (pos 9, 0) ∷ (pos 11, 1) ∷ [];
    bag = [];
    vect = replicate 48 none;
    equipped = [];
  };
  equips = [];
  sent = [];
}

do_swallow_all-nothing_example :
    (do_swallow_all env player ≡ fault) ⊎ (do_swallow_all env player ≡ ok (true, player))
unfolding find
do_swallow_all-nothing_example =
    do_swallow_all-nothing env player (pos 9) (pos 11) 0 1 refl refl (λ e. cc)

abbrev first_hunt : SoulHuntInfo
first_hunt = record {
  money_need = pos 100;
  level_need = pos 1;
  soul_value = pos 5;
  level_up_rate = 50;
  rand_quality = (pos 100, pos 1) ∷ [];
}

abbrev hunting : Env
hunting = record env {
  item_tables = record { items = []; soul_items = (pos 1, spirit ∷ []) ∷ []; equip_strength = [] };
  soul_tables = record {
    souls_hunt_info = none ∷ some first_hunt ∷ [];
    souls_info = [];
    souls_exchange = [];
  };
}

abbrev hunt_request : Object
hunt_request = body_of (("SoulMetaIndex", int_value (pos 1)) ∷ [])
