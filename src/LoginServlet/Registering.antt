-- ===== src/LoginServlet/Registering.antt =====
-- login_servlet.cpp: a registration, and the login that follows it.
use windnet_game.Prelude.{
  ◌≡◌, refl, ℤ, pos, true, false, none, some, Option, ◌∷◌, find, string_key, int_key, String,
}
use windnet_game.Prelude.Outcome.{ok}
use windnet_game.Account.{Answers, new_account, get_account_info}
use windnet_game.Account.Mapped.{IsMapped, register_account-IsMapped}
use windnet_game.Session.{success_body, error_body}
use windnet_game.Bson.{Object, get_string_val, message}
use windnet_game.LoginServlet.{
  LoginServer, ServerInfo, do_register, do_login, system_login, check_login, server_id_of,
  login_body, is_empty, answer, registered, register_error_name_already_exist,
  login_error_name_passwd_error,
}

same_refl : (k : String) → string_key.same k k ≡ true
same_refl k = (string_key.same_iff k k).1 refl

-- The strings that a request gives to doRegister, and to doLogin.
pub record Asks (request : Object) (name passwd : String) : Type 0 where
  pub has_name : get_string_val "Name" request ≡ ok name
  pub has_passwd : get_string_val "Pwd" request ≡ ok passwd

pub record AsksLogin (request : Object) : Type 0 where
  pub has_type : get_string_val "Type" request ≡ ok "system"
  pub device_id : (s : String) × (get_string_val "DeviceId" request ≡ ok s)
  pub device_mode : (s : String) × (get_string_val "DeviceMode" request ≡ ok s)
  pub screen_size : (s : String) × (get_string_val "ScreenSize" request ≡ ok s)

-- A name that is not taken, with a password, can be registered where the database takes it, and from
-- then on a "system" login with that name and password for a server that is there is answered
-- with the new account's token and id.
pub do_register-do_login :
    (cast : String → Option ℤ) (db : Answers) (s : LoginServer) (register login : Object)
    (name passwd : String) (server_id : ℤ) (server : ServerInfo)
    → IsMapped s.accounts
    → db.executed ≡ true
    → find db.new_token s.accounts.token_account_map ≡ none
    → get_account_info s.accounts name ≡ none
    → is_empty name ≡ false
    → is_empty passwd ≡ false
    → Asks register name passwd
    → Asks login name passwd
    → AsksLogin login
    → server_id_of cast login ≡ ok server_id
    → find server_id s.servers ≡ some server
    → (s' : LoginServer) × (do_register db register s ≡ ok (true, s'))
      × (s'.sent ≡ message "Register" success_body ∷ s.sent)
      × IsMapped s'.accounts
      × (do_login cast login s'
          ≡ answer "Login"
              (login_body
                (pos 20001)
                (new_account db.auto_id name passwd db.new_token db.new_open_id))
              s')
unfolding do_register do_login system_login check_login registered
do_register-do_login cast db s register login name passwd server_id server v taken fresh unknown
      named secret asks again asked at server_there =
    let (am, a, made, mapped, there, found, by_id, by_token, unused) =
      register_account-IsMapped db name passwd s.accounts v taken fresh in
    let new = new_account db.auto_id name passwd db.new_token db.new_open_id in
    let s' : LoginServer = record {
      accounts = am;
      servers = s.servers;
      sent = message "Register" success_body ∷ s.sent;
    } in
    let (device_id, d) = asked.device_id in
    let (device_mode, m) = asked.device_mode in
    let (screen_size, z) = asked.screen_size in
    (
      s',
      rw (do_register, asks.has_name, asks.has_passwd, named, secret, unknown, made) refl,
      refl,
      mapped,
      rw (do_login, asked.has_type)
          (rw (system_login, at, again.has_name, again.has_passwd, d, m, z, found, there)
            (rw (check_login, same_refl passwd, server_there) refl)),
    )

-- A name that has been registered stays with its password: a second registration of the name, with
-- whatever password and answers of the database, is answered with an error and changes no account,
-- and a "system" login with another password is answered with an error that names no token.
pub do_register-do_register :
    (cast : String → Option ℤ) (db db' : Answers) (s : LoginServer) (register second login : Object)
    (name passwd other wrong : String) (server_id : ℤ)
    → IsMapped s.accounts
    → db.executed ≡ true
    → find db.new_token s.accounts.token_account_map ≡ none
    → get_account_info s.accounts name ≡ none
    → is_empty name ≡ false
    → is_empty passwd ≡ false
    → is_empty other ≡ false
    → string_key.same passwd wrong ≡ false
    → Asks register name passwd
    → Asks second name other
    → Asks login name wrong
    → AsksLogin login
    → server_id_of cast login ≡ ok server_id
    → (s' : LoginServer) × (do_register db register s ≡ ok (true, s'))
      × (do_register db' second s'
          ≡ answer "Register" (error_body register_error_name_already_exist) s')
      × (do_login cast login s' ≡ answer "Login" (error_body login_error_name_passwd_error) s')
unfolding do_register do_login system_login check_login registered
do_register-do_register cast db db' s register second login name passwd other wrong server_id v
      taken fresh unknown named secret nonempty differs asks again wrongly asked at =
    let (am, a, made, mapped, there, found, by_id, by_token, unused) =
      register_account-IsMapped db name passwd s.accounts v taken fresh in
    let (device_id, d) = asked.device_id in
    let (device_mode, m) = asked.device_mode in
    let (screen_size, z) = asked.screen_size in
    (
      record s { accounts = am; sent = message "Register" success_body ∷ s.sent },
      rw (do_register, asks.has_name, asks.has_passwd, named, secret, unknown, made) refl,
      rw (do_register, again.has_name, again.has_passwd, named, nonempty, found) refl,
      rw (do_login, asked.has_type)
          (rw (system_login, at, wrongly.has_name, wrongly.has_passwd, d, m, z, found, there)
            (rw (check_login, differs) refl)),
    )
