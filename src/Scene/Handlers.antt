-- ===== src/Scene/Handlers.antt =====
-- scene_servlet.cpp.
use windnet_game.Prelude.{
  ℕ, ℤ, pos, Bool, true, false, Option, none, some, [], ◌∷◌, String, Map, set, find, string_key,
}
use windnet_game.Prelude.Outcome.{Outcome, ok, need, ◌>>=◌}
use windnet_game.Account.{RoleInfo, account_at, role_at, get_account_info_by_token}
use windnet_game.Session.{success_body}
use windnet_game.World.{World, send_to, session_role, live_role, role_of_session, write_role}
use windnet_game.Dispatch.Routes
use windnet_game.Dispatch.Routes.{SceneHandler, scene_chain}
use windnet_game.Bson.{
  Object, get_int_val, get_double_val, body_of, message, int_value, string_value, double_value,
}
use windnet_game.Scene.{get_scene, write_scene, add_player, broadcast, send_surrounding}

-- The account's current role by the token; `none` where the source finds no account or no role.
abbrev pub current_role : World → String → Outcome (Option ℕ)
current_role w token = elim (get_account_info_by_token w.accounts token) [
  | none ↦ ok none
  | some a ↦ do ai ← need (account_at w.accounts a); ok ai.current
]

abbrev join_body : RoleInfo → Object
join_body ri = body_of (
    ("Id", int_value ri.role_id)
    ∷ ("Name", string_value ri.role_name)
    ∷ ("ProfessionId", int_value ri.profession)
    ∷ ("Pet", int_value (pos 1))
    ∷ ("Mounts", int_value (pos 1))
    ∷ [])

-- The part of doEnterScene behind its tests. The scene is that of the id 1.
unfoldable pub entered : ℕ → ℕ → RoleInfo → Map ℤ ℕ → World → Outcome (Bool × World)
entered unset ps ri players w = do
  r ← need (session_role w ps)
  role ← live_role w r
  let joined = add_player ri.role_id ps players
  let w₁ = write_scene (pos 1) joined (write_role r (record role { scene = some (pos 1) }) w)
  let w₂ = broadcast (message "OtherJoinLobby" (join_body ri)) ri.role_id joined w₁
  w₃ ← send_surrounding unset ri.role_id ps joined w₂
  ok (true, w₃)

-- SceneServlet::doEnterScene
unfoldable pub do_enter_scene : ℕ → String → ℕ → Object → World → Outcome (Bool × World)
do_enter_scene unset token ps request w = do
  scene_id ← get_int_val "SceneId" request
  found ← current_role w token
  elim found [
    | none ↦ ok (true, w)
    | some i ↦ do
      ri ← need (role_at w.accounts i)
      elim (get_scene w (pos 1)) [
        | none ↦ ok (false, w)
        | some players ↦ entered unset ps ri players w
      ]
  ]

-- The new position of the RoleInfo at an address.
abbrev move_info : ℕ → RoleInfo → ℕ → ℕ → World → World
move_info i ri x y w = record w {
  accounts = record (w.accounts) {
    role_heap = set w.accounts.role_heap i (record ri { pos_x = some x; pos_y = some y });
  };
}

-- The part of doAvatarWalk behind its tests, for a role that stands in a scene.
unfoldable pub walked : ℕ → RoleInfo → ℕ → ℕ → ℤ → World → Outcome (Bool × World)
walked i ri x y scene_id w = do
  players ← need (get_scene w scene_id)
  let body =
      body_of (("Id", int_value ri.role_id) ∷ ("X", double_value x) ∷ ("Y", double_value y) ∷ [])
  ok (true, broadcast (message "OtherRunInLobby" body) ri.role_id players (move_info i ri x y w))

-- SceneServlet::doAvatarWalk
unfoldable pub do_avatar_walk : String → ℕ → Object → World → Outcome (Bool × World)
do_avatar_walk token ps request w = do
  found ← current_role w token
  elim found [
    | none ↦ ok (true, w)
    | some i ↦ do
      x ← get_double_val "X" request
      y ← get_double_val "Y" request
      role ← role_of_session w ps
      ri ← need (role_at w.accounts i)
      elim role.scene [ none ↦ ok (false, w) | some scene_id ↦ walked i ri x y scene_id w ]
  ]

-- SceneServlet::doEnterInstance
unfoldable pub do_enter_instance : ℕ → World → Outcome (Bool × World)
do_enter_instance ps w = do
  role ← role_of_session w ps
  elim role.scene [
    | none ↦ ok (false, w)
    | some scene_id ↦ ok (true, send_to ps (message "JoinPart" success_body) w)
  ]

-- SceneServlet::doNotifyMonsterDead
unfoldable pub do_notify_monster_dead : ℕ → Object → World → Outcome (Bool × World)
do_notify_monster_dead ps request w = do
  monster_id ← get_int_val "Id" request
  ok (true, send_to ps (message "MonsterDead" success_body) w)

-- SceneServlet::doLeaveInstanceScene, which answers "PartLeave" with another command.
unfoldable pub do_leave_instance_scene : ℕ → World → Outcome (Bool × World)
do_leave_instance_scene ps w = ok (true, send_to ps (message "LeavePart" success_body) w)

unfoldable pub call_scene_handler :
    SceneHandler → ℕ → String → ℕ → Object → World → Outcome (Bool × World)
call_scene_handler Routes.on_enter_scene unset token ps request w =
    do_enter_scene unset token ps request w
call_scene_handler Routes.on_avatar_walk unset token ps request w =
    do_avatar_walk token ps request w
call_scene_handler Routes.on_enter_instance unset token ps request w = do_enter_instance ps w
call_scene_handler Routes.on_notify_monster_dead unset token ps request w =
    do_notify_monster_dead ps request w
call_scene_handler Routes.on_leave_instance_scene unset token ps request w =
    do_leave_instance_scene ps w

-- SceneServlet::doRequest
unfoldable pub do_scene_request : ℕ → String → String → ℕ → Object → World → Outcome (Bool × World)
do_scene_request unset type token ps request w = elim (find type scene_chain) [
  | none ↦ ok (false, w)
  | some handler ↦ call_scene_handler handler unset token ps request w
]
