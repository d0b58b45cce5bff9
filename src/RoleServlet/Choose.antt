-- ===== src/RoleServlet/Choose.antt =====
-- role_servlet.cpp: doChooseRole and doRequest.
use windnet_game.Prelude.{
  ℕ, ℤ, pos, Bool, true, false, none, some, [], ◌∷◌, String, set, find, string_key, int_key,
  if◌then◌else◌,
}
use windnet_game.Prelude.Outcome.{Outcome, ok, need, ◌>>=◌}
use windnet_game.Account.{
  Answers, AccountInfo, account_at, role_at, write_account, get_account_info_by_token,
}
use windnet_game.Role.{Role, profession, vip_level, level}
use windnet_game.World.{
  World, RoleAttribute, RoleData, send_to, session_role, role_of_session, get_player,
  load_session_role,
}
use windnet_game.LoginServlet.{is_empty}
use windnet_game.Dispatch.Routes
use windnet_game.Dispatch.Routes.{RoleHandler, role_chain}
use windnet_game.Bson.{
  Object, get_int_val, body_of, message, set_array_val, set_object_val, int_value, string_value,
}
use windnet_game.RoleServlet.{
  do_create_role, do_validate_nick_name, do_load_roles, do_remove_role, do_recovery_role,
}

-- The first message, in which the two points stand under each other's name.
unfoldable pub role_message : Role → RoleAttribute → Object
role_message role ra =
    let info = body_of (
      ("SceneId", int_value (pos 1))
      ∷ ("ProfessionId", int_value (profession role))
      ∷ ("Gold", int_value role.gold)
      ∷ ("Silver", int_value role.money)
      ∷ ("VIP", int_value (vip_level role))
      ∷ ("GameState", int_value (pos 0))
      ∷ ("Level", int_value (level role))
      ∷ ("Experience", int_value (pos 0))
      ∷ ("MP", int_value ra.hp)
      ∷ ("HP", int_value ra.mp)
      ∷ ("RMB", int_value (pos 0))
      ∷ ("Name", string_value role.role_name)
      ∷ []) in
    message "ChooseRole" (
      set_array_val "Mounts" [] (
        set_array_val "Pets" [] (
          set_array_val "Skills" []
            (set_array_val "Equips" [] (set_object_val "RoleInfo" info [])))))

-- The second message.
unfoldable pub property_message : RoleAttribute → Object
property_message ra = message "SyncProperty" (
    body_of (
      ("MinAttack", int_value ra.min_physical_attack)
      ∷ ("MaxAttack", int_value ra.max_physical_attack)
      ∷ ("MinMagicAttack", int_value ra.min_magic_attack)
      ∷ ("MaxMagicAttack", int_value ra.max_magic_attack)
      ∷ ("Defense", int_value ra.defence)
      ∷ ("MagicDefense", int_value ra.magic_defence)
      ∷ ("Hit", int_value ra.hit)
      ∷ ("Dodge", int_value ra.dodge)
      ∷ ("Crit", int_value ra.crit)
      ∷ ("Toughness", int_value ra.toughness)
      ∷ ("Move", int_value ra.move_speed)
      ∷ ("AttackSpeed", int_value ra.attack_speed)
      ∷ ("HP", int_value ra.max_hp)
      ∷ ("MP", int_value ra.max_mp)
      ∷ []))

-- The session takes the role of the player that the manager knows, or loads it; and whether the
-- loading ends with an exception.
unfoldable pub take_role : RoleData → ℕ → ℤ → ℕ → World → Outcome (Bool × World)
take_role d ps role_id info w = elim (get_player w role_id) [
  | some other ↦ ok (false, record w { sessions = set w.sessions ps (session_role w other) })
  | none ↦ do ri ← need (role_at w.accounts info); load_session_role d ps ri.role_id info w
]

-- The messages at the end of doChooseRole.
unfoldable pub chosen_messages : ℕ → World → Outcome (Bool × World)
chosen_messages ps w = do
  role ← role_of_session w ps
  ra ← need role.attribute
  ok (true, send_to ps (property_message ra) (send_to ps (role_message role.player.role ra) w))

-- The part of doChooseRole for a role of the account. An exception of the loading passes through
-- doChooseRole to the dispatch, which catches it and returns false: that is what is given here, with
-- the changes that were made before it.
unfoldable pub chosen : RoleData → ℕ → ℤ → ℕ → AccountInfo → ℕ → World → Outcome (Bool × World)
chosen d ps role_id a ai info w = do
  let am = write_account a (record ai { current = some info }) w.accounts
  (threw, w') ← take_role d ps role_id info (record w { accounts = am })
  if threw then ok (false, w') else chosen_messages ps w'

-- RoleServlet::doChooseRole
unfoldable pub do_choose_role : RoleData → String → ℕ → Object → World → Outcome (Bool × World)
do_choose_role d token ps request w = if is_empty token then ok (false, w) else do
  role_id ← get_int_val "RoleId" request
  elim (get_account_info_by_token w.accounts token) [
    | none ↦ ok (true, w)
    | some a ↦ do
      ai ← need (account_at w.accounts a)
      elim (find role_id ai.roles) [
        | none ↦ ok (true, w)
        | some info ↦ chosen d ps role_id a ai info w
      ]
  ]

module _ (db : Answers) (d : RoleData) where
  unfoldable pub call_role_handler :
      RoleHandler → String → ℕ → Object → World → Outcome (Bool × World)
  call_role_handler Routes.on_create_role token ps request w = do_create_role db token ps request w
  call_role_handler Routes.on_validate_nick_name token ps request w =
      do_validate_nick_name ps request w
  call_role_handler Routes.on_load_roles token ps request w = do_load_roles token ps request w
  call_role_handler Routes.on_choose_role token ps request w = do_choose_role d token ps request w
  call_role_handler Routes.on_remove_role token ps request w = do_remove_role w
  call_role_handler Routes.on_recovery_role token ps request w = do_recovery_role w

  -- RoleServlet::doRequest
  unfoldable pub do_role_request : String → String → ℕ → Object → World → Outcome (Bool × World)
  do_role_request type token ps request w = elim (find type role_chain) [
    | none ↦ ok (false, w)
    | some handler ↦ call_role_handler handler token ps request w
  ]
