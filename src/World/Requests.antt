-- ===== src/World/Requests.antt =====
-- The servlets behind ServletDispatch, on the state that the sessions share. A handler of a servlet of
-- one session is run on its role, and what it sends goes to that session; a deleted role is taken to
-- be used by it.
use windnet_game.Prelude.{ℕ, ℤ, Bool, Option, none, some, List, [], ◌∷◌, ◌++◌, String}
use windnet_game.Prelude.Outcome.{Outcome, ok, ◌>>=◌}
use windnet_game.Account.{Answers}
use windnet_game.Session.{Player, Env}
use windnet_game.LoginServlet.{LoginServer}
use windnet_game.LoginServlet.Requests.{do_login_request}
use windnet_game.ItemServlet.Requests.{do_item_request}
use windnet_game.SoulServlet.Requests.{do_soul_request}
use windnet_game.GemServlet.{do_gem_request}
use windnet_game.RoleServlet.Choose.{do_role_request}
use windnet_game.Scene.Handlers.{do_scene_request}
use windnet_game.Task.{TaskTable, do_task_request, do_skill_request}
use windnet_game.World.{World, OnlineRole, RoleData, session_role, live_role, write_role}
use windnet_game.Dispatch.{
  Servlet, login_servlet, role_servlet, scene_servlet, task_servlet, item_servlet, gem_servlet,
  skill_servlet, soul_servlet, chat_servlet, friend_servlet, dispatch,
}
use windnet_game.ChatServlet.{do_chat_request, do_friend_request}
use windnet_game.Bson.{Object}

abbrev pub addressed : ℕ → List Object → List (ℕ × Object)
addressed ps [] = []
addressed ps (obj ∷ objs) = (ps, obj) ∷ addressed ps objs

-- The world behind a handler that was run on a role.
abbrev pub back : ℕ → ℕ → OnlineRole → Option Player → World → World
back ps r role none w = w
back ps r role (some p) w =
    let w' = write_role r (record role { player = record p { sent = [] } }) w in
    record w' { outbox = addressed ps p.sent ++ w.outbox }

unfoldable pub on_session :
    (Option Player → Outcome (Bool × Option Player)) → ℕ → World → Outcome (Bool × World)
on_session f ps w = elim (session_role w ps) [
  | none ↦ do (ret, p) ← f none; ok (ret, w)
  | some r ↦ do role ← live_role w r; (ret, p) ← f (some role.player); ok (ret, back ps r role p w)
]

-- The login server's part of the world.
unfoldable pub on_login :
    (LoginServer → Outcome (Bool × LoginServer)) → ℕ → World → Outcome (Bool × World)
on_login f ps w = do
  (ret, s) ← f (record { accounts = w.accounts; servers = w.servers; sent = [] })
  ok (ret, record w { accounts = s.accounts; outbox = addressed ps s.sent ++ w.outbox })

-- What a request meets outside: the tables, the database, the clock, rand() and boost::lexical_cast.
pub record Outside : Type 0 where
  pub env : Env
  pub answers : Answers
  pub role_data : RoleData
  pub int_cast : String → Option ℤ
  pub task_table : TaskTable
  pub unset_double : ℕ

-- The virtual call of Servlet::doRequest, for the session at `ps`.
unfoldable pub do_request :
    Outside → ℕ → Servlet → String → String → Object → World → Outcome (Bool × World)
do_request o ps login_servlet type token body w =
    on_login (do_login_request o.int_cast o.answers type body) ps w
do_request o ps role_servlet type token body w =
    do_role_request o.answers o.role_data type token ps body w
do_request o ps scene_servlet type token body w =
    do_scene_request o.unset_double type token ps body w
do_request o ps task_servlet type token body w = do_task_request o.task_table type ps body w
do_request o ps item_servlet type token body w = on_session (do_item_request o.env type body) ps w
do_request o ps gem_servlet type token body w = on_session (do_gem_request o.env type body) ps w
do_request o ps skill_servlet type token body w = do_skill_request type ps w
do_request o ps soul_servlet type token body w = on_session (do_soul_request o.env type body) ps w
do_request o ps chat_servlet type token body w = do_chat_request type w
do_request o ps friend_servlet type token body w = do_friend_request type w

-- A request of the session at `ps`.
unfoldable pub serve : Outside → ℕ → Object → World → Outcome (Bool × World)
serve o ps request w = dispatch (do_request o ps) request w
