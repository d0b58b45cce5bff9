-- ===== src/LoginServlet/Tests.antt =====
-- A concrete registration, and the logins after it.
use windnet_game.Prelude.{
  ◌≡◌, refl, ℤ, pos, true, none, some, Option, [], ◌∷◌, String, find, insert, put, string_key,
  if◌then◌else◌,
}
use windnet_game.Prelude.Outcome.{ok}
use windnet_game.Account.{Answers, init_accounts, new_account, get_account_info}
use windnet_game.Account.Mapped.{IsMapped, init_accounts-IsMapped}
use windnet_game.Session.{success_body, error_body}
use windnet_game.Bson.{
  Object, body_of, set_fields, string_value, message, get_string_val, get_or_default,
}
use windnet_game.LoginServlet.{
  LoginServer, do_register, do_login, answer, login_body, server_id_of,
  register_error_name_already_exist, login_error_name_passwd_error,
}
use windnet_game.LoginServlet.Servers.{init_servers}
use windnet_game.LoginServlet.Registering.{
  Asks, AsksLogin, do_register-do_login, do_register-do_register,
}

abbrev taken : Answers
taken = record {
  executed = true;
  auto_id = pos 7;
  new_token = "a1";
  new_open_id = "b2";
  clock = 1400000000;
}

abbrev fresh_server : LoginServer
unfolding init_servers
fresh_server = record { accounts = init_accounts; servers = init_servers; sent = [] }

-- boost::lexical_cast on the one text that is used here.
abbrev cast_two : String → Option ℤ
cast_two str = if string_key.same str "2" then some (pos 2) else none

abbrev register_request : Object
register_request = body_of (("Name", string_value "william") ∷ ("Pwd", string_value "secret") ∷ [])

abbrev second_request : Object
second_request = body_of (("Name", string_value "william") ∷ ("Pwd", string_value "other") ∷ [])

abbrev login_request : String → Object
login_request passwd = body_of (
    ("Type", string_value "system")
    ∷ ("ServerId", string_value "2")
    ∷ ("Name", string_value "william")
    ∷ ("Pwd", string_value passwd)
    ∷ [])

register-Asks : Asks register_request "william" "secret"
unfolding body_of set_fields insert put find get_string_val get_or_default
register-Asks = record { has_name = refl; has_passwd = refl }

second-Asks : Asks second_request "william" "other"
unfolding body_of set_fields insert put find get_string_val get_or_default
second-Asks = record { has_name = refl; has_passwd = refl }

login-Asks : Asks (login_request "secret") "william" "secret"
unfolding body_of set_fields insert put find get_string_val get_or_default
login-Asks = record { has_name = refl; has_passwd = refl }

wrong-Asks : Asks (login_request "guess") "william" "guess"
unfolding body_of set_fields insert put find get_string_val get_or_default
wrong-Asks = record { has_name = refl; has_passwd = refl }

login-AsksLogin : AsksLogin (login_request "secret")
unfolding body_of set_fields insert put find get_string_val get_or_default
login-AsksLogin = record {
  has_type = refl;
  device_id = ("", refl);
  device_mode = ("", refl);
  screen_size = ("", refl);
}

wrong-AsksLogin : AsksLogin (login_request "guess")
unfolding body_of set_fields insert put find get_string_val get_or_default
wrong-AsksLogin = record {
  has_type = refl;
  device_id = ("", refl);
  device_mode = ("", refl);
  screen_size = ("", refl);
}

do_register-do_login_example :
    (s' : LoginServer) × (do_register taken register_request fresh_server ≡ ok (true, s'))
    × (s'.sent ≡ message "Register" success_body ∷ [])
    × IsMapped s'.accounts
    × (do_login cast_two (login_request "secret") s'
        ≡ answer "Login"
            (login_body (pos 20001) (new_account (pos 7) "william" "secret" "a1" "b2"))
            s')
unfolding body_of set_fields insert put find get_string_val get_or_default server_id_of
    get_account_info init_servers
do_register-do_login_example =
    do_register-do_login cast_two taken fresh_server register_request (login_request "secret")
      "william" "secret" (pos 2) _ init_accounts-IsMapped refl refl refl refl refl register-Asks
      login-Asks login-AsksLogin refl refl

do_register-do_register_example :
    (s' : LoginServer) × (do_register taken register_request fresh_server ≡ ok (true, s'))
    × (do_register taken second_request s'
        ≡ answer "Register" (error_body register_error_name_already_exist) s')
    × (do_login cast_two (login_request "guess") s'
        ≡ answer "Login" (error_body login_error_name_passwd_error) s')
unfolding body_of set_fields insert put find get_string_val get_or_default server_id_of
    get_account_info init_servers
do_register-do_register_example =
    do_register-do_register cast_two taken taken fresh_server register_request second_request
      (login_request "guess") "william" "secret" "other" "guess" (pos 2) init_accounts-IsMapped refl
      refl refl refl refl refl refl register-Asks second-Asks wrong-Asks wrong-AsksLogin refl
