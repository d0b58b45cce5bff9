-- ===== src/Scene/Tests.antt =====
-- Concrete players in a scene.
use windnet_game.Prelude.{ℕ, ◌≡◌, refl, ℤ, pos, none, some, [], ◌∷◌, Map, find, insert, put, erase}
use windnet_game.Prelude.Outcome.{Outcome, fault, ok}
use windnet_game.ItemBag
use windnet_game.Session.{Player}
use windnet_game.Account.{init_accounts}
use windnet_game.World.{World, OnlineRole, session_role, empty_role}
use windnet_game.Scene.{
  add_player, remove_player, receivers, all_sessions, player_offline, leave_scene, get_scene,
  broadcast,
}
use windnet_game.Scene.Broadcast.{Reach, start, enters, receivers-Reach}
use windnet_game.Scene.Offline.{Left, player_offline-twice}

abbrev three : Map ℤ ℕ
three = add_player (pos 5) 2 (add_player (pos 4) 1 (add_player (pos 3) 0 []))

three-Reach : Reach three
three-Reach = enters (pos 5) 2 _ (enters (pos 4) 1 _ (enters (pos 3) 0 [] start))

receivers-Reach_example : receivers (pos 4) three ≡ all_sessions (remove_player (pos 4) three)
receivers-Reach_example = receivers-Reach (pos 4) three three-Reach

-- The sessions 0 and 2 hear of the role 4.
two_hear : receivers (pos 4) three ≡ 0 ∷ 2 ∷ []
unfolding receivers add_player insert put find
two_hear = refl

abbrev idle_player : ℤ → Player
idle_player id = record {
  role = record empty_role { role_id = id };
  role_info_id = id;
  bag = ItemBag.init [] [];
  souls = record { souls = []; hunted = []; bag = []; vect = []; equipped = [] };
  equips = [];
  sent = [];
}

abbrev in_lobby : ℤ → OnlineRole
in_lobby id = record {
  player = idle_player id;
  info = none;
  scene = some (pos 1);
  attribute = none;
  finished_task = [];
}

abbrev lobby : World
lobby = record {
  accounts = init_accounts;
  servers = [];
  sessions = some 0 ∷ some 1 ∷ [];
  roles = some (in_lobby (pos 3)) ∷ some (in_lobby (pos 4)) ∷ [];
  scenes = (pos 1, (pos 3, 0) ∷ (pos 4, 1) ∷ []) ∷ [];
  online_players = [];
  cache_players = [];
  outbox = [];
}

abbrev world_of : Outcome World → World
world_of (ok w) = w
world_of _ = lobby

player_offline-twice_example :
    Left (some (pos 1)) (pos 3) lobby.scenes (world_of (player_offline 0 lobby)).scenes
    × (session_role (world_of (player_offline 0 lobby)) 0 ≡ some 0)
    × (player_offline 0 (world_of (player_offline 0 lobby)) ≡ fault)
unfolding player_offline leave_scene get_scene remove_player receivers broadcast find erase put
player_offline-twice_example =
    player_offline-twice 0 0 lobby (world_of (player_offline 0 lobby)) (in_lobby (pos 3)) refl refl
      refl
