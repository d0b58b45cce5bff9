-- ===== src/World.antt =====
-- player_session.h and .cpp, player_session_manager.cpp, and the state that the sessions share. A
-- PlayerSession * is an address in the list of sessions, whose entries are m_role; a Role * is an
-- address in a heap, in which a deleted role leaves `none`; a Scene *, which is never freed, is the
-- key of the scene in SceneManager's map. What is sent is a list of messages with the session that
-- each goes to, the latest first.
pub mod Requests
use windnet_game.Prelude.{
  ℕ, ℤ, pos, Bool, true, false, Option, none, some, List, [], ◌∷◌, ◌++◌, length, get_elem?, get_or,
  set, String, Map, find, erase, insert, int_key, if◌then◌else◌,
}
use windnet_game.Prelude.Outcome.{Outcome, fault, ok, need, ◌>>=◌}
use windnet_game.Item.{ItemTemplate}
use windnet_game.ItemBag
use windnet_game.ItemBag.{Store}
use windnet_game.ItemBag.Load
use windnet_game.ItemBag.Load.{broken, stopped, loaded}
use windnet_game.SoulsBag.{SoulStore, init_souls}
use windnet_game.SoulsBag.Load.{SoulRow, load_souls_from_db}
use windnet_game.Role.{Role, RoleRow, level, load_role}
use windnet_game.Session.{Player}
use windnet_game.Account.{Accounts, RoleInfo, role_at}
use windnet_game.LoginServlet.{ServerInfo}
use windnet_game.Bson.{Object}

-- Dataset::RoleAttribute, the fields that the servlets read.
pub record RoleAttribute : Type 0 where
  pub hp : ℤ
  pub mp : ℤ
  pub max_hp : ℤ
  pub max_mp : ℤ
  pub min_physical_attack : ℤ
  pub max_physical_attack : ℤ
  pub min_magic_attack : ℤ
  pub max_magic_attack : ℤ
  pub defence : ℤ
  pub magic_defence : ℤ
  pub hit : ℤ
  pub dodge : ℤ
  pub crit : ℤ
  pub toughness : ℤ
  pub move_speed : ℤ
  pub attack_speed : ℤ

-- Role, with the part of it that the servlets of one session share.
pub record OnlineRole : Type 0 where
  pub player : Player
  pub info : Option ℕ
  pub scene : Option ℤ
  pub attribute : Option RoleAttribute
  pub finished_task : List ℤ

pub record World : Type 0 where
  pub accounts : Accounts
  pub servers : Map ℤ ServerInfo
  pub sessions : List (Option ℕ)
  pub roles : List (Option OnlineRole)
  pub scenes : Map ℤ (Map ℤ ℕ)
  pub online_players : Map ℤ ℕ
  pub cache_players : Map ℤ ℕ
  pub outbox : List (ℕ × Object)

abbrev pub send_to : ℕ → Object → World → World
send_to ps obj w = record w { outbox = (ps, obj) ∷ w.outbox }

-- ps->role(): the pointer, which may be null.
abbrev pub session_role : World → ℕ → Option ℕ
session_role w ps = get_or w.sessions ps none

-- A use of a pointer to a role.
abbrev pub live_role : World → ℕ → Outcome OnlineRole
live_role w r = need (get_or w.roles r none)

-- A use of ps->role().
abbrev pub role_of_session : World → ℕ → Outcome OnlineRole
role_of_session w ps = do r ← need (session_role w ps); live_role w r

abbrev pub write_role : ℕ → OnlineRole → World → World
write_role r role w = record w { roles = set w.roles r (some role) }

-- PlayerSession::roleInfo: with no role a null pointer.
unfoldable pub role_info : World → ℕ → Outcome (Option ℕ)
role_info w ps = elim (session_role w ps) [
  | none ↦ ok none
  | some r ↦ do role ← live_role w r; ok role.info
]

-- What the database and the tables give to PlayerSession::loadRole. `cast` is boost::lexical_cast.
pub record RoleData : Type 0 where
  pub attributes : Map ℤ RoleAttribute
  pub templates : ℤ → Option ItemTemplate
  pub cast : List ℕ → Option ℤ
  pub role_rows : List RoleRow
  pub item_rows : List ItemBag.Load.Row
  pub soul_rows : List SoulRow

abbrev has_attribute : Map ℤ RoleAttribute → ℤ → Bool
has_attribute attributes lvl = elim (find lvl attributes) [ none ↦ false | some attr ↦ true ]

-- The role of a Role whose row is not there: the message's fields are 0 and empty.
abbrev pub empty_role : Role
empty_role = record {
  role_id = pos 0;
  role_profession = pos 0;
  money = pos 0;
  gold = pos 0;
  role_name = "";
  role_level = pos 0;
  role_vip_level = pos 0;
  role_exp = pos 0;
  role_souls_index = pos 0;
  souls_value = pos 0;
}

abbrev attribute_of : RoleData → Role → Option RoleAttribute
attribute_of d role = elim d.role_rows [ [] ↦ none | row ∷ rows ↦ find (level role) d.attributes ]

-- The Role at the end of loadRole, from what has been loaded.
abbrev made_role : RoleData → ℕ → RoleInfo → Role → Store × List ℕ → SoulStore → OnlineRole
made_role d info ri role (bag, worn) souls = record {
  player = record {
    role = role;
    role_info_id = ri.role_id;
    bag = bag;
    souls = souls;
    equips = worn;
    sent = [];
  };
  info = some info;
  scene = none;
  attribute = attribute_of d role;
  finished_task = [];
}

-- The souls are loaded only where the items were loaded without an exception.
unfoldable pub with_souls_loaded :
    RoleData → ℕ → RoleInfo → Role → ItemBag.Load.Loading → Outcome (Bool × OnlineRole)
with_souls_loaded d info ri role broken = fault
with_souls_loaded d info ri role (stopped items) =
    ok (true, made_role d info ri role items (init_souls []))
with_souls_loaded d info ri role (loaded items) = do
  souls ← need (load_souls_from_db d.templates d.soul_rows (init_souls []))
  ok (false, made_role d info ri role items souls)

-- The role that PlayerSession::loadRole makes, for the RoleInfo at `info`, and whether an exception
-- has left it half loaded.
unfoldable pub loaded_role : RoleData → ℤ → ℕ → RoleInfo → Outcome (Bool × OnlineRole)
loaded_role d role_id info ri = do
  role ← need (load_role (has_attribute d.attributes) role_id d.role_rows empty_role)
  with_souls_loaded d info ri role (
      ItemBag.Load.load_from_db d.templates d.cast role.role_id d.item_rows
        (ItemBag.init [] [], []))

-- PlayerSession::loadRole, and whether it ends with an exception. The session has the role before it
-- is loaded, and so keeps one that is half loaded.
unfoldable pub load_session_role : RoleData → ℕ → ℤ → ℕ → World → Outcome (Bool × World)
load_session_role d ps role_id info w = elim (session_role w ps) [
  | some r ↦ ok (false, w)
  | none ↦ do
    ri ← need (role_at w.accounts info)
    (threw, role) ← loaded_role d role_id info ri
    ok (
      threw,
      record w {
        roles = w.roles ++ some role ∷ [];
        sessions = set w.sessions ps (some (length w.roles));
      },
    )
]

-- PlayerSessionManager::getOnlinePlayer, getPlayer and playerOffline
unfoldable pub get_online_player : World → ℤ → Option ℕ
get_online_player w role_id = find role_id w.online_players

unfoldable pub get_player : World → ℤ → Option ℕ
get_player w role_id = elim (find role_id w.online_players) [
  | some ps ↦ some ps
  | none ↦ find role_id w.cache_players
]

unfoldable pub manager_player_offline : ℕ → World → Outcome World
manager_player_offline ps w = elim (session_role w ps) [
  | none ↦ ok w
  | some r ↦ do
    role ← live_role w r
    let id = role.player.role.role_id
    ok (record w {
      online_players = erase id w.online_players;
      cache_players = insert id ps w.cache_players;
    })
]
