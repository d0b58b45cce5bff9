-- ===== src/LoginServlet.antt =====
-- login_servlet.cpp and peer/server_manager.h and .cpp: registration, login and the list of servers.
-- A handler takes the request's body and the state of the login server; what is sent to the client is
-- in the state, the latest first.
pub mod Servers
pub mod Requests
pub mod Registering
mod Tests
use windnet_game.Prelude.{
  ℕ, ℤ, pos, negsuc, ◌==ℤ◌, Bool, true, false, ◌||◌, Option, none, some, List, [], ◌∷◌, String, Map,
  find, int_key, string_key, if◌then◌else◌,
}
use windnet_game.Prelude.Outcome.{Outcome, fault, thrown, ok, need, ◌>>=◌}
use windnet_game.Account.{
  AccountInfo, Accounts, Answers, account_at, get_account_info, register_account,
}
use windnet_game.Session.{error_body, success_body, no_error}
use windnet_game.Bson.{
  Object, get_int_val, get_string_val, body_of, message, int_value, string_value, bool_value,
}

-- ServerInfo
pub record ServerInfo : Type 0 where
  pub server_id : ℤ
  pub server_name : String
  pub domain : String
  pub town : String
  pub line : String
  pub state : ℤ
  pub server_state : ℤ
  pub port : ℤ

-- What LoginServlet takes from ServerResource: the accounts, and ServerManager's map m_idMap.
pub record LoginServer : Type 0 where
  pub accounts : Accounts
  pub servers : Map ℤ ServerInfo
  pub sent : List Object

abbrev pub answer : String → Object → LoginServer → Outcome (Bool × LoginServer)
answer command body s = ok (true, record s { sent = message command body ∷ s.sent })

-- error_code.h
abbrev pub register_error_name_already_exist : ℤ
register_error_name_already_exist = pos 105

abbrev pub login_error_server_not_selected : ℤ
login_error_server_not_selected = pos 103

abbrev pub login_error_account_non_exist : ℤ
login_error_account_non_exist = pos 108

abbrev pub login_error_name_passwd_error : ℤ
login_error_name_passwd_error = pos 109

abbrev pub is_empty : String → Bool
is_empty s = string_key.same s ""

-- The answer of doRegister behind registerAccount, whose -1 is taken for ERROR_CODE_NO_ERROR.
unfoldable pub registered : ℤ × Accounts → LoginServer → Outcome (Bool × LoginServer)
registered (error, am) s =
    let code = if error ==ℤ pos 0 then no_error else error in
    answer "Register" (if code ==ℤ no_error then success_body else error_body code)
      (record s { accounts = am })

-- LoginServlet::doRegister
unfoldable pub do_register : Answers → Object → LoginServer → Outcome (Bool × LoginServer)
do_register db request s = do
  name ← get_string_val "Name" request
  passwd ← get_string_val "Pwd" request
  if is_empty name || is_empty passwd
      then ok (false, s)
      else elim (get_account_info s.accounts name) [
        | some a ↦ answer "Register" (error_body register_error_name_already_exist) s
        | none ↦ registered (register_account db name passwd s.accounts) s
      ]

-- LoginServlet::doValidateName
unfoldable pub do_validate_name : Object → LoginServer → Outcome (Bool × LoginServer)
do_validate_name request s = do
  name ← get_string_val "Name" request
  if is_empty name then ok (false, s) else elim (get_account_info s.accounts name) [
    | some a ↦ answer "ValidataName" (error_body register_error_name_already_exist) s
    | none ↦ answer "ValidataName" success_body s
  ]

-- The body of a login that succeeds.
unfoldable pub login_body : ℤ → AccountInfo → Object
login_body port ai = body_of (
    ("Token", string_value ai.token)
    ∷ ("UserId", int_value ai.account_id)
    ∷ ("Domain", string_value "172.16.5.26")
    ∷ ("Port", int_value port)
    ∷ ("SysOpenId", string_value ai.sys_open_id)
    ∷ ("IMAddress", string_value "172.16.5.26")
    ∷ ("MapAddress", string_value "172.16.5.26")
    ∷ ("PanelAddress", string_value "172.16.5.26")
    ∷ [])

abbrev auto_login_error : Object
auto_login_error = body_of (("Error", bool_value true) ∷ [])

-- LoginServlet::doAutoLogin
unfoldable pub do_auto_login : Object → LoginServer → Outcome (Bool × LoginServer)
do_auto_login request s = do
  name ← get_string_val "Name" request
  open_id ← get_string_val "SysOpenId" request
  if is_empty name || is_empty open_id
      then answer "AutoLogin" auto_login_error s
      else elim (get_account_info s.accounts name) [
        | none ↦ answer "AutoLogin" auto_login_error s
        | some a ↦ do
          ai ← need (account_at s.accounts a)
          if string_key.same ai.sys_open_id open_id
              then answer "AutoLogin" (login_body (pos 20000) ai) s
              else answer "AutoLogin" auto_login_error s
      ]

-- The first try block of doLogin, where `lexical_cast` is boost's, `none` being its exception.
unfoldable pub server_id_of : (String → Option ℤ) → Object → Outcome ℤ
server_id_of lexical_cast request = elim (get_string_val "ServerId" request) [
  | fault ↦ fault
  | thrown ↦ get_int_val "ServerId" request
  | ok str ↦ elim (lexical_cast str) [ none ↦ get_int_val "ServerId" request | some id ↦ ok id ]
]

-- The tests of doLogin behind the search for the account.
unfoldable pub check_login : AccountInfo → String → ℤ → LoginServer → Outcome (Bool × LoginServer)
check_login ai passwd server_id s =
    if string_key.same ai.passwd passwd
    then elim (find server_id s.servers) [
      | none ↦ answer "Login" (error_body login_error_server_not_selected) s
      | some server ↦ answer "Login" (login_body (pos 20001) ai) s
    ]
    else answer "Login" (error_body login_error_name_passwd_error) s

-- The part of doLogin for a login of the type "system".
unfoldable pub system_login :
    (String → Option ℤ) → Object → LoginServer → Outcome (Bool × LoginServer)
system_login lexical_cast request s = do
  server_id ← server_id_of lexical_cast request
  name ← get_string_val "Name" request
  passwd ← get_string_val "Pwd" request
  device_id ← get_string_val "DeviceId" request
  device_mode ← get_string_val "DeviceMode" request
  screen_size ← get_string_val "ScreenSize" request
  elim (get_account_info s.accounts name) [
    | none ↦ answer "Login" (error_body login_error_account_non_exist) s
    | some a ↦ do ai ← need (account_at s.accounts a); check_login ai passwd server_id s
  ]

-- LoginServlet::doLogin
unfoldable pub do_login : (String → Option ℤ) → Object → LoginServer → Outcome (Bool × LoginServer)
do_login lexical_cast request s = do
  type ← get_string_val "Type" request
  if string_key.same type "auto"
      then do_auto_login request s
      else if string_key.same type "system"
      then system_login lexical_cast request s
      else ok (false, s)
