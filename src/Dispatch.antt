-- ===== src/Dispatch.antt =====
-- servlet.cpp: the table of the commands and the dispatch of a request to a servlet. The servlets are a
-- parameter here: a handler of a state `W`, which throws before it changes the state, if it throws.
pub mod Routes
pub mod Known
pub mod Caught
mod Tests
use windnet_game.Prelude.{
  Bool, true, false, Option, none, some, List, [], ◌∷◌, String, Map, find, insert, string_key,
}
use windnet_game.Prelude.Outcome.{Outcome, fault, thrown, ok, ◌>>=◌}
use windnet_game.Bson.{Object, get_string_val, get_object_val}
use windnet_game.Dispatch.Routes.{
  login_chain, role_chain, scene_chain, task_chain, item_chain, gem_chain, skill_chain, soul_chain,
  chat_chain, friend_chain,
}

pub data Servlet : Type 0 where
  login_servlet : Servlet
  role_servlet : Servlet
  scene_servlet : Servlet
  task_servlet : Servlet
  item_servlet : Servlet
  gem_servlet : Servlet
  skill_servlet : Servlet
  soul_servlet : Servlet
  chat_servlet : Servlet
  friend_servlet : Servlet

-- m_servlets.insert(make_pair(command, servlet)), for each of the commands.
unfoldable pub route : Servlet → List String → Map String Servlet → Map String Servlet
route servlet [] table = table
route servlet (command ∷ commands) table = route servlet commands (insert command servlet table)

abbrev login_commands : List String
login_commands =
    "Register" ∷ "ValidataName" ∷ "Login" ∷ "AutoLogin" ∷ "LoadServers" ∷ "ChooseServer"
    ∷ "LoadTowns" ∷ "GetRecommandServers" ∷ "GetRecommandServer" ∷ "GetSimpleServer" ∷ []

abbrev role_commands : List String
role_commands =
    "CreateRole" ∷ "ValidataNick" ∷ "LoadRoles" ∷ "ChooseRole" ∷ "RemoveRole" ∷ "RecoveryRole" ∷ []

abbrev scene_commands : List String
scene_commands = "InLobby" ∷ "RunInLobby" ∷ "JoinPart" ∷ "MonsterDead" ∷ "PartLeave" ∷ []

abbrev task_commands : List String
task_commands = "LoadTasks" ∷ "AcceptTask" ∷ "FinishTask" ∷ []

abbrev item_commands : List String
item_commands =
    "OpenPackage" ∷ "AppendPackage" ∷ "AbandonProps" ∷ "SortPackage" ∷ "BuyPropFromBodyShop"
    ∷ "InBody" ∷ "GetBody" ∷ "OutBody" ∷ "StrengProps" ∷ "MoveProps" ∷ "SaleProps" ∷ "GetEquipGem"
    ∷ "PrevStrengProps" ∷ []

abbrev gem_commands : List String
gem_commands = "UpGem" ∷ "DownGem" ∷ "StrengGem" ∷ []

abbrev skill_commands : List String
skill_commands = "SkillInfo" ∷ "UpSkill" ∷ "EnableSkill" ∷ "EquipSkill" ∷ "UnEquipSkill" ∷ []

abbrev soul_commands : List String
soul_commands =
    "SoulMetaInfo" ∷ "LotterySoulMeta" ∷ "PacketSoulMeta" ∷ "SwallowQuickly" ∷ "SwallowOne"
    ∷ "SoulMetaMove" ∷ "BuySoulMeta" ∷ "EquipSoulMeta" ∷ "EquipSoulMetaInfo" ∷ []

-- ServletDispatch::init
unfoldable pub init_table : Map String Servlet
init_table = route soul_servlet soul_commands (
    route skill_servlet skill_commands (
      route gem_servlet gem_commands (
        route item_servlet item_commands (
          route task_servlet task_commands (
            route scene_servlet scene_commands
              (route role_servlet role_commands (route login_servlet login_commands [])))))))

abbrev pub is_some {ℓ} : {A : Type ℓ} → Option A → Bool
is_some none = false
is_some (some a) = true

-- Whether a servlet's doRequest has a branch for a command.
unfoldable pub handles : Servlet → String → Bool
handles login_servlet command = is_some (find command login_chain)
handles role_servlet command = is_some (find command role_chain)
handles scene_servlet command = is_some (find command scene_chain)
handles task_servlet command = is_some (find command task_chain)
handles item_servlet command = is_some (find command item_chain)
handles gem_servlet command = is_some (find command gem_chain)
handles skill_servlet command = is_some (find command skill_chain)
handles soul_servlet command = is_some (find command soul_chain)
handles chat_servlet command = is_some (find command chat_chain)
handles friend_servlet command = is_some (find command friend_chain)

-- The try block: an exception of the handler is caught, and the result is `false`.
abbrev pub caught {ℓ} : {W : Type ℓ} → W → Outcome (Bool × W) → Outcome (Bool × W)
caught w fault = fault
caught w thrown = ok (false, w)
caught w (ok r) = ok r

module _ {ℓ} {W : Type ℓ}
    (do_request : Servlet → String → String → Object → W → Outcome (Bool × W)) where
  -- ServletDispatch::dispatch
  unfoldable pub dispatch : Object → W → Outcome (Bool × W)
  dispatch request w = do
    proto ← get_string_val "Command" request
    token ← get_string_val "Token" request
    elim (find proto init_table) [
      | none ↦ ok (false, w)
      | some servlet ↦ do
        body ← get_object_val "Body" request
        caught w (do_request servlet proto token body w)
    ]

  -- ServletDispatch::dispatchMessage: the result, and whether the message is deleted.
  unfoldable pub dispatch_message : Object → W → Outcome (Bool × Bool × W)
  dispatch_message request w = do
    proto ← get_string_val "Command" request
    token ← get_string_val "Token" request
    elim (find proto init_table) [
      | none ↦ ok (false, false, w)
      | some servlet ↦ do
        body ← get_object_val "Body" request
        name ← get_string_val "Name" body
        (ret, w') ← caught w (do_request servlet proto token body w)
        ok (ret, true, w')
    ]
