-- ===== src/Task.antt =====
-- task.cpp, task_servlet.cpp, skill_servlet.cpp and timer.cpp.
pub mod Accepting
pub mod Timers
mod Tests
use windnet_game.Prelude.{
  ℕ, ℤ, pos, ◌+ℤ◌, ◌==ℤ◌, int32, not, Bool, true, false, Option, none, some, List, [], ◌∷◌, String,
  find, string_key, Map, int_key, if◌then◌else◌,
}
use windnet_game.Prelude.Outcome.{Outcome, ok, ◌>>=◌}
use windnet_game.Session.{error_body}
use windnet_game.World.{World, send_to, role_of_session}
use windnet_game.Dispatch.Routes
use windnet_game.Dispatch.Routes.{TaskHandler, task_chain, SkillHandler, skill_chain}
use windnet_game.Bson.{Object, get_int_val, body_of, message, set_array_val, int_value}

-- TaskTemplate, the fields that are read; and TaskTemplateManager.
pub record TaskTemplate : Type 0 where
  pub task_id : ℤ
  pub pre_task : List ℤ

abbrev pub TaskTable : Type 0
TaskTable = Map ℤ TaskTemplate

-- Whether a std::set has an element.
unfoldable pub contains : ℤ → List ℤ → Bool
contains x [] = false
contains x (y ∷ ys) = let rest = contains x ys in if x ==ℤ y then true else rest

-- Task::taskFinished, as it is written: the task is not found among those that are finished.
unfoldable pub task_finished : List ℤ → ℤ → Bool
task_finished finished task_id = not (contains task_id finished)

-- The loop of doAcceptTask.
unfoldable pub accept_error : List ℤ → List ℤ → Bool
accept_error finished [] = false
accept_error finished (t ∷ pre) =
    let rest = accept_error finished pre in if not (task_finished finished t) then true else rest

-- TaskServlet::doAcceptTask, whose error code is `true`.
unfoldable pub do_accept_task : TaskTable → ℕ → Object → World → Outcome (Bool × World)
do_accept_task table ps request w = do
  task_id ← get_int_val "TaskId" request
  elim (find task_id table) [
    | none ↦ ok (true, w)
    | some task_temp ↦ do
      role ← role_of_session w ps
      let body =
          if accept_error role.finished_task task_temp.pre_task
          then error_body (pos 1)
          else body_of (
              ("TaskId", int_value task_id)
              ∷ ("TaskUniqueId", int_value (int32 (task_id +ℤ pos 1)))
              ∷ [])
      ok (true, send_to ps (message "AcceptTask" body) w)
  ]

-- TaskServlet::doLoadTasks and doFinishTask
unfoldable pub do_load_tasks : World → Outcome (Bool × World)
do_load_tasks w = ok (true, w)

unfoldable pub do_finish_task : Object → World → Outcome (Bool × World)
do_finish_task request w = do task_id ← get_int_val "TaskUniqueId" request; ok (true, w)

unfoldable pub call_task_handler :
    TaskHandler → TaskTable → ℕ → Object → World → Outcome (Bool × World)
call_task_handler Routes.on_load_tasks table ps request w = do_load_tasks w
call_task_handler Routes.on_accept_task table ps request w = do_accept_task table ps request w
call_task_handler Routes.on_finish_task table ps request w = do_finish_task request w

-- TaskServlet::doRequest
unfoldable pub do_task_request : TaskTable → String → ℕ → Object → World → Outcome (Bool × World)
do_task_request table type ps request w = elim (find type task_chain) [
  | none ↦ ok (false, w)
  | some handler ↦ call_task_handler handler table ps request w
]

-- SkillServlet::doLoadSkills and doUpgradeSkill
unfoldable pub do_load_skills : ℕ → World → Outcome (Bool × World)
do_load_skills ps w = ok (true, send_to ps (message "SkillInfo" (set_array_val "Skills" [] [])) w)

unfoldable pub do_upgrade_skill : World → Outcome (Bool × World)
do_upgrade_skill w = ok (true, w)

unfoldable pub call_skill_handler : SkillHandler → ℕ → World → Outcome (Bool × World)
call_skill_handler Routes.on_load_skills ps w = do_load_skills ps w
call_skill_handler Routes.on_upgrade_skill ps w = do_upgrade_skill w

-- SkillServlet::doRequest
unfoldable pub do_skill_request : String → ℕ → World → Outcome (Bool × World)
do_skill_request type ps w = elim (find type skill_chain) [
  | none ↦ ok (false, w)
  | some handler ↦ call_skill_handler handler ps w
]
