-- ===== src/LoginServlet/Servers.antt =====
-- login_servlet.cpp and peer/server_manager.cpp: the handlers about the list of servers.
use windnet_game.Prelude.{
  ℤ, pos, Bool, true, false, Option, none, some, List, [], ◌∷◌, Map, find, put, int_key,
}
use windnet_game.Prelude.Outcome.{Outcome, ok, ◌>>=◌}
use windnet_game.Session.{error_body}
use windnet_game.Bson.{Object, get_int_val, body_of, set_array_val, int_value, string_value}
use windnet_game.LoginServlet.{ServerInfo, LoginServer, answer}

abbrev first_server : ServerInfo
first_server = record {
  server_id = pos 2;
  server_name = "测试服务器1";
  domain = "172.16.5.26";
  town = "华北区";
  line = "电信";
  state = pos 0;
  server_state = pos 1;
  port = pos 9000;
}

abbrev second_server : ServerInfo
second_server = record {
  server_id = pos 3;
  server_name = "测试服务器2";
  domain = "172.16.5.26";
  town = "华男区";
  line = "网通";
  state = pos 0;
  server_state = pos 1;
  port = pos 9001;
}

-- ServerManager::ServerManager
unfoldable pub init_servers : Map ℤ ServerInfo
init_servers =
    put second_server.server_id second_server (put first_server.server_id first_server [])

-- ServerManager::get, getRecommandServer and getAll
unfoldable pub get_server : LoginServer → ℤ → Option ServerInfo
get_server s id = find id s.servers

unfoldable pub get_recommand_server : Map ℤ ServerInfo → Option ServerInfo
get_recommand_server [] = none
get_recommand_server ((id, server) ∷ m) = some server

unfoldable pub get_all : Map ℤ ServerInfo → List ServerInfo
get_all [] = []
get_all ((id, server) ∷ m) = server ∷ get_all m

abbrev show_all : (ServerInfo → Object) → List ServerInfo → List Object
show_all show [] = []
show_all show (server ∷ servers) = show server ∷ show_all show servers

-- LoginServlet::doLoadServerTowns
unfoldable pub do_load_server_towns : LoginServer → Outcome (Bool × LoginServer)
do_load_server_towns s =
    let towns =
      show_all (λ server. body_of (("Name", string_value server.town) ∷ [])) (get_all s.servers) in
    answer "LoadTowns" (set_array_val "Towns" towns []) s

abbrev server_fields : ServerInfo → Object
server_fields server = body_of (
    ("Id", int_value server.server_id)
    ∷ ("Name", string_value server.server_name)
    ∷ ("Town", string_value server.town)
    ∷ ("Line", string_value server.line)
    ∷ ("State", int_value server.state)
    ∷ ("ServerState", int_value server.server_state)
    ∷ [])

-- LoginServlet::doLoadServers
unfoldable pub do_load_servers : LoginServer → Outcome (Bool × LoginServer)
do_load_servers s =
    answer "LoadServers" (set_array_val "Servers" (show_all server_fields (get_all s.servers)) []) s

-- LoginServlet::doGetRecommandServers
unfoldable pub do_get_recommand_servers : LoginServer → Outcome (Bool × LoginServer)
do_get_recommand_servers s =
    answer "GetRecommandServers"
      (set_array_val "Servers" (show_all server_fields (get_all s.servers)) []) s

-- LoginServlet::doGetCurrentRecommandSrv
unfoldable pub do_get_current_recommand_srv : LoginServer → Outcome (Bool × LoginServer)
do_get_current_recommand_srv s = elim (get_recommand_server s.servers) [
  | none ↦ ok (true, s)
  | some server ↦
      answer "GetRecommandServer"
        (body_of
          (("Id", int_value server.server_id) ∷ ("Name", string_value server.server_name) ∷ []))
        s
]

-- LoginServlet::doGetServerInfo, which sets "ServerState" twice.
unfoldable pub do_get_server_info : Object → LoginServer → Outcome (Bool × LoginServer)
do_get_server_info request s = do
  server_id ← get_int_val "Id" request
  elim (get_server s server_id) [
    | none ↦ answer "GetSimpleServer" (error_body (pos 104)) s
    | some server ↦
        answer "GetSimpleServer"
          (body_of (
            ("Id", int_value server_id)
            ∷ ("Name", string_value server.server_name)
            ∷ ("Town", string_value server.town)
            ∷ ("Line", string_value server.line)
            ∷ ("ServerState", int_value server.server_state)
            ∷ ("ServerState", int_value server.state)
            ∷ []))
          s
  ]

-- LoginServlet::doChooseServer
unfoldable pub do_choose_server : Object → LoginServer → Outcome (Bool × LoginServer)
do_choose_server request s = do
  server_id ← get_int_val "Id" request
  elim (get_server s server_id) [
    | none ↦ ok (false, s)
    | some server ↦
        answer "ChooseServer"
          (body_of (("Domain", string_value server.domain) ∷ ("Port", int_value server.port) ∷ []))
          s
  ]
