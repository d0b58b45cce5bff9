-- ===== src/LoginServlet/Requests.antt =====
-- login_servlet.cpp: doRequest.
use windnet_game.Prelude.{ℤ, Bool, false, Option, none, some, String, find, string_key}
use windnet_game.Prelude.Outcome.{Outcome, ok}
use windnet_game.Account.{Answers}
use windnet_game.Dispatch.Routes
use windnet_game.Dispatch.Routes.{LoginHandler, login_chain}
use windnet_game.Bson.{Object}
use windnet_game.LoginServlet.{LoginServer, do_register, do_validate_name, do_login, do_auto_login}
use windnet_game.LoginServlet.Servers.{
  do_load_servers, do_choose_server, do_load_server_towns, do_get_recommand_servers,
  do_get_server_info, do_get_current_recommand_srv,
}

module _ (lexical_cast : String → Option ℤ) (db : Answers) where
  unfoldable pub call_login_handler :
      LoginHandler → Object → LoginServer → Outcome (Bool × LoginServer)
  call_login_handler Routes.on_register request s = do_register db request s
  call_login_handler Routes.on_validate_name request s = do_validate_name request s
  call_login_handler Routes.on_login request s = do_login lexical_cast request s
  call_login_handler Routes.on_auto_login request s = do_auto_login request s
  call_login_handler Routes.on_load_servers request s = do_load_servers s
  call_login_handler Routes.on_choose_server request s = do_choose_server request s
  call_login_handler Routes.on_load_server_towns request s = do_load_server_towns s
  call_login_handler Routes.on_get_recommand_servers request s = do_get_recommand_servers s
  call_login_handler Routes.on_get_server_info request s = do_get_server_info request s
  call_login_handler Routes.on_get_current_recommand_srv request s = do_get_current_recommand_srv s

  -- LoginServlet::doRequest
  unfoldable pub do_login_request : String → Object → LoginServer → Outcome (Bool × LoginServer)
  do_login_request type request s = elim (find type login_chain) [
    | none ↦ ok (false, s)
    | some handler ↦ call_login_handler handler request s
  ]
