-- ===== src/Dispatch/Tests.antt =====
-- Concrete requests, with handlers that count what they handle.
use windnet_game.Prelude.{
  ◌≡◌, refl, ℕ, suc, Bool, true, [], String, find, insert, put, string_key, pos,
}
use windnet_game.Prelude.Outcome.{Outcome, thrown, ok}
use windnet_game.Bson.{
  Object, message, get_string_val, get_object_val, set_string_val, set_int_val, set_object_val,
  get_or_default, object_of, fields_of,
}
use windnet_game.Dispatch.{
  Servlet, login_servlet, item_servlet, init_table, route, handles, is_some, dispatch,
  dispatch_message,
}
use windnet_game.Dispatch.Known.{init_table-handles}
use windnet_game.Dispatch.Caught.{Known, dispatch_message-dispatch}

-- A login is handled; what else comes throws.
abbrev count_logins : Servlet → String → String → Object → ℕ → Outcome (Bool × ℕ)
count_logins login_servlet command token body n = ok (true, suc n)
count_logins _ command token body n = thrown

abbrev login_request : Object
login_request = message "Login" []

init_table-handles_example : handles item_servlet "SaleProps" ≡ true
unfolding init_table route insert put find
init_table-handles_example = init_table-handles "SaleProps" item_servlet refl

login-Known : Known login_request "Login" login_servlet
unfolding message get_string_val get_or_default set_string_val set_object_val insert put find
    init_table route
login-Known = (refl, refl)

dispatch_message-dispatch_example :
    (dispatch count_logins login_request 4 ≡ ok (true, 5))
    × (true ≡ is_some (find "Login" init_table))
unfolding message get_string_val get_object_val get_or_default set_string_val set_object_val insert
    put find init_table route dispatch_message object_of fields_of
dispatch_message-dispatch_example =
    dispatch_message-dispatch count_logins login_request 4 5 "Login" true true refl refl

-- A command that is a number throws, and the exception leaves the dispatch.
number_command_throws : dispatch count_logins (set_int_val "Command" (pos 1) []) 4 ≡ thrown
unfolding dispatch get_string_val get_or_default set_int_val insert put find
number_command_throws = refl
