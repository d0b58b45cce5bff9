-- ===== src/Scene.antt =====
-- scene.h and scene.cpp, scene_manager.cpp, and the end of a session in player_session.cpp.
pub mod Broadcast
pub mod Handlers
pub mod Offline
mod Tests
use windnet_game.Prelude.{
  ℕ, ℤ, pos, negsuc, ◌==ℤ◌, Bool, true, Option, none, some, List, [], ◌∷◌, ◌++◌, set, String, Map,
  find, put, insert, erase, int_key, if◌then◌else◌,
}
use windnet_game.Prelude.Outcome.{Outcome, ok, need, ◌>>=◌}
use windnet_game.Account.{RoleInfo, role_at}
use windnet_game.World.{
  World, OnlineRole, send_to, session_role, live_role, role_of_session, role_info, write_role,
}
use windnet_game.Bson.{
  Object, body_of, message, set_array_val, int_value, string_value, double_value,
}

-- SceneManager::initScenes over the ids of the table of scenes, and SceneManager::get.
unfoldable pub init_scenes : List ℤ → Map ℤ (Map ℤ ℕ) → Map ℤ (Map ℤ ℕ)
init_scenes [] scenes = scenes
init_scenes (id ∷ ids) scenes = init_scenes ids (put id [] scenes)

unfoldable pub get_scene : World → ℤ → Option (Map ℤ ℕ)
get_scene w scene_id = find scene_id w.scenes

abbrev pub write_scene : ℤ → Map ℤ ℕ → World → World
write_scene scene_id players w = record w { scenes = put scene_id players w.scenes }

-- Scene::addPlayer and Scene::removePlayer on m_players.
unfoldable pub add_player : ℤ → ℕ → Map ℤ ℕ → Map ℤ ℕ
add_player id ps players = insert id ps players

unfoldable pub remove_player : ℤ → Map ℤ ℕ → Map ℤ ℕ
remove_player role_id players = erase role_id players

abbrev pub all_sessions : Map ℤ ℕ → List ℕ
all_sessions [] = []
all_sessions ((id, ps) ∷ players) = ps ∷ all_sessions players

-- The loops of Scene::broadcast: the sessions that get the message, in order. Behind the entry of
-- `self`, which is skipped, nothing is compared any more.
unfoldable pub receivers : ℤ → Map ℤ ℕ → List ℕ
receivers self [] = []
receivers self ((id, ps) ∷ players) =
    let rest = receivers self players in if self ==ℤ id then all_sessions players else ps ∷ rest

abbrev pub send_all : List ℕ → Object → World → World
send_all [] obj w = w
send_all (ps ∷ pss) obj w = send_all pss obj (send_to ps obj w)

-- Scene::broadcast
unfoldable pub broadcast : Object → ℤ → Map ℤ ℕ → World → World
broadcast obj self players w = send_all (receivers self players) obj w

abbrev written : ℕ → Option ℕ → ℕ
written unset none = unset
written unset (some d) = d

-- The object of a player in sendSurrounding. `unset` is what a position holds that was never written.
abbrev surrounding_fields : ℕ → RoleInfo → Object
surrounding_fields unset ri = body_of (
    ("Id", int_value ri.role_id)
    ∷ ("ProfessionId", int_value ri.profession)
    ∷ ("Name", string_value ri.role_name)
    ∷ ("Level", int_value ri.level)
    ∷ ("X", double_value (written unset ri.pos_x))
    ∷ ("Y", double_value (written unset ri.pos_y))
    ∷ [])

-- it->second->roleInfo(), dereferenced.
abbrev info_of_session : World → ℕ → Outcome RoleInfo
info_of_session w ps = do found ← role_info w ps; r ← need found; need (role_at w.accounts r)

-- The loop of Scene::sendSurrounding.
unfoldable pub surrounding : ℕ → ℤ → World → Map ℤ ℕ → Outcome (List Object)
surrounding unset self w [] = ok []
surrounding unset self w ((id, ps) ∷ players) =
    let rest = surrounding unset self w players in
    if id ==ℤ self
    then rest
    else do ri ← info_of_session w ps; objs ← rest; ok (surrounding_fields unset ri ∷ objs)

-- Scene::sendSurrounding
unfoldable pub send_surrounding : ℕ → ℤ → ℕ → Map ℤ ℕ → World → Outcome World
send_surrounding unset id ps players w = do
  array ← surrounding unset id w players
  ok (send_to ps (message "SameUsers" (set_array_val "SameUsers" array [])) w)

-- Scene::leaveScene, which broadcasts with the default argument, -1.
unfoldable pub leave_scene : ℕ → ℤ → World → Outcome World
leave_scene ps scene_id w = do
  role ← role_of_session w ps
  players ← need (get_scene w scene_id)
  let id = role.player.role.role_id
  let left = remove_player id players
  let notify = message "OtherLeaveLobby" (body_of (("UserId", int_value id) ∷ []))
  ok (broadcast notify (negsuc 0) left (write_scene scene_id left w))

abbrev leave : ℕ → Option ℤ → World → Outcome World
leave ps none w = ok w
leave ps (some scene_id) w = leave_scene ps scene_id w

-- PlayerSession::playerOffline. The role is deleted, and m_role still points to it.
unfoldable pub player_offline : ℕ → World → Outcome World
player_offline ps w = elim (session_role w ps) [
  | none ↦ ok w
  | some r ↦ do
    role ← live_role w r
    w' ← leave ps role.scene w
    ok (record w' { roles = set w'.roles r none })
]
