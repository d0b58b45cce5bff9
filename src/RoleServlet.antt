-- ===== src/RoleServlet.antt =====
-- role_servlet.cpp: the handlers that make, show and choose roles.
pub mod Choose
pub mod Creating
mod Tests
use windnet_game.Prelude.{
  ℕ, ℤ, pos, negsuc, ◌==ℤ◌, Bool, true, false, ◌||◌, Option, none, some, List, [], ◌∷◌, String, Map,
  find, string_key, int_key, if◌then◌else◌,
}
use windnet_game.Prelude.Outcome.{Outcome, fault, ok, need, ◌>>=◌}
use windnet_game.Account.{
  Accounts, Answers, AccountInfo, RoleInfo, account_at, role_at, get_account_info_by_token,
  get_account_info_by_id, get_role_info_by_name, create_role,
}
use windnet_game.Session.{error_body, success_body}
use windnet_game.World.{World, send_to}
use windnet_game.LoginServlet.{is_empty}
use windnet_game.Bson.{
  Object, get_int_val, get_string_val, body_of, message, set_array_val, int_value, string_value,
}

-- error_code.h
abbrev pub login_error_nick_name_already_exist : ℤ
login_error_nick_name_already_exist = pos 112

abbrev create_answer : ℤ → Object
create_answer error = if error ==ℤ pos 0 then success_body else error_body error

abbrev with_accounts : Accounts → World → World
with_accounts am w = record w { accounts = am }

-- The part of doCreateRole behind its tests, for the account at `a`. A name that is taken leaves the
-- error at 0.
unfoldable pub created : Answers → ℕ → ℕ → String → ℤ → World → Outcome (Bool × World)
created db ps a name profession w = elim (get_role_info_by_name w.accounts name) [
  | some r ↦ ok (true, send_to ps (message "CreateRole" (create_answer (pos 0))) w)
  | none ↦ do
    (error, am) ← need (create_role db a name profession w.accounts)
    ok (true, send_to ps (message "CreateRole" (create_answer error)) (with_accounts am w))
]

-- RoleServlet::doCreateRole
unfoldable pub do_create_role : Answers → String → ℕ → Object → World → Outcome (Bool × World)
do_create_role db token ps request w = if is_empty token then ok (false, w) else do
  name ← get_string_val "Name" request
  profession ← get_int_val "ProfessId" request
  if is_empty name then ok (false, w) else elim (get_account_info_by_token w.accounts token) [
    | none ↦ ok (false, w)
    | some a ↦ created db ps a name profession w
  ]

-- RoleServlet::doValidateNickName
unfoldable pub do_validate_nick_name : ℕ → Object → World → Outcome (Bool × World)
do_validate_nick_name ps request w = do
  name ← get_string_val "Name" request
  elim (get_role_info_by_name w.accounts name) [
    | some r ↦ ok (
      true,
      send_to ps (message "ValidataNick" (error_body login_error_nick_name_already_exist)) w,
    )
    | none ↦ ok (true, send_to ps (message "ValidataNick" success_body) w)
  ]

abbrev role_fields : RoleInfo → Object
role_fields ri = body_of (
    ("Id", int_value ri.role_id)
    ∷ ("Name", string_value ri.role_name)
    ∷ ("Level", int_value ri.level)
    ∷ ("ProfessionId", int_value ri.profession)
    ∷ ("State", int_value (pos 0))
    ∷ ("SurplusDay", int_value (pos 1000))
    ∷ [])

-- The loop of doLoadRoles.
unfoldable pub role_objects : Accounts → Map ℤ ℕ → Outcome (List Object)
role_objects am [] = ok []
role_objects am ((id, r) ∷ m) = do
  ri ← need (role_at am r)
  objs ← role_objects am m
  ok (role_fields ri ∷ objs)

-- The tests at the head of doLoadRoles: each leaves the block, and `error` stays false.
unfoldable pub load_roles_error : String → Option AccountInfo → Bool
load_roles_error token none = false
load_roles_error token (some ai) =
    if is_empty token then false else if string_key.same ai.token token then false else false

-- The account that doLoadRoles has found, which may be a null pointer.
abbrev account_found : Accounts → Option ℕ → Option AccountInfo
account_found am none = none
account_found am (some a) = account_at am a

-- RoleServlet::doLoadRoles
unfoldable pub do_load_roles : String → ℕ → Object → World → Outcome (Bool × World)
do_load_roles token ps request w = do
  account_id ← get_int_val "UserId" request
  let found = account_found w.accounts (get_account_info_by_id w.accounts account_id)
  if load_roles_error token found
      then ok (true, send_to ps (message "LoadRoles" (body_of [])) w)
      else do
        ai ← need found
        array ← role_objects w.accounts ai.roles
        ok (true, send_to ps (message "LoadRoles" (set_array_val "Roles" array [])) w)

-- RoleServlet::doRemoveRole and doRecoveryRole
unfoldable pub do_remove_role : World → Outcome (Bool × World)
do_remove_role w = ok (true, w)

unfoldable pub do_recovery_role : World → Outcome (Bool × World)
do_recovery_role w = ok (true, w)
