-- ===== src/Account.antt =====
-- account_manager.h and account_manager.cpp. An AccountInfo::ptr and a RoleInfo::ptr are addresses in
-- two heaps, since several maps and the accounts share the objects. The set m_tokens, which nothing
-- reads, and the fields that nothing writes are left out. UUIDs, the clock and the database's answer
-- are arguments.
pub mod Mapped
pub mod Load
mod Tests
use windnet_game.Prelude.{
  ℕ, ℤ, pos, negsuc, int8, Bool, true, false, Option, none, some, List, [], ◌∷◌, ◌++◌, length,
  get_elem?, set, String, Map, find, put, insert, int_key, string_key, if◌then◌else◌,
}
use windnet_game.Prelude.Fault.{◌>>=◌}

-- RoleInfo. A position that was never written is `none`.
pub record RoleInfo : Type 0 where
  pub role_id : ℤ
  pub level : ℤ
  pub profession : ℤ
  pub register_time : ℕ
  pub role_name : String
  pub pos_x : Option ℕ
  pub pos_y : Option ℕ

-- AccountInfo
pub record AccountInfo : Type 0 where
  pub account_id : ℤ
  pub account_name : String
  pub passwd : String
  pub token : String
  pub device_id : String
  pub sys_open_id : String
  pub current : Option ℕ
  pub roles : Map ℤ ℕ

-- An SQL statement of AccountManager with its arguments.
pub data AccountStatement : Type 0 where
  insert_account : String → String → ℕ → String → String → AccountStatement
  insert_role : ℤ → String → ℤ → ℕ → AccountStatement

-- AccountManager, the two heaps, and the statements sent to the database, the latest first.
pub record Accounts : Type 0 where
  pub account_heap : List AccountInfo
  pub role_heap : List RoleInfo
  pub token_account_map : Map String ℕ
  pub name_map : Map String ℕ
  pub id_map : Map ℤ ℕ
  pub role_id_map : Map ℤ ℕ
  pub role_name_map : Map String ℕ
  pub statements : List AccountStatement

-- An AccountManager before it has loaded anything.
abbrev pub init_accounts : Accounts
init_accounts = record {
  account_heap = [];
  role_heap = [];
  token_account_map = [];
  name_map = [];
  id_map = [];
  role_id_map = [];
  role_name_map = [];
  statements = [];
}

abbrev pub account_at : Accounts → ℕ → Option AccountInfo
account_at am a = get_elem? am.account_heap a

abbrev pub role_at : Accounts → ℕ → Option RoleInfo
role_at am r = get_elem? am.role_heap r

-- A write to the account at an address.
abbrev pub write_account : ℕ → AccountInfo → Accounts → Accounts
write_account a ai am = record am { account_heap = set am.account_heap a ai }

-- The account that registerAccount makes.
abbrev pub new_account : ℤ → String → String → String → String → AccountInfo
new_account id name passwd token open_id = record {
  account_id = id;
  account_name = name;
  passwd = passwd;
  token = token;
  device_id = "";
  sys_open_id = open_id;
  current = none;
  roles = [];
}

-- What the calls outside give to registerAccount and createRole: whether the database took the
-- insertion, and the id that it gave; two UUIDs; the clock.
pub record Answers : Type 0 where
  pub executed : Bool
  pub auto_id : ℤ
  pub new_token : String
  pub new_open_id : String
  pub clock : ℕ

-- AccountManager::registerAccount
unfoldable pub register_account : Answers → String → String → Accounts → ℤ × Accounts
register_account db name passwd am =
    let sent = insert_account name passwd db.clock db.new_token db.new_open_id ∷ am.statements in
    let a = length am.account_heap in
    if db.executed
    then (
      pos 0,
      record am {
        account_heap =
            am.account_heap ++ new_account db.auto_id name passwd db.new_token db.new_open_id ∷ [];
        id_map = put db.auto_id a am.id_map;
        name_map = put name a am.name_map;
        token_account_map = insert db.new_token a am.token_account_map;
        statements = sent;
      },
    )
    else (negsuc 0, record am { statements = sent })

-- The role that createRole makes; the profession is a `char`.
abbrev pub new_role : ℤ → String → ℤ → ℕ → RoleInfo
new_role id name profession now = record {
  role_id = id;
  level = pos 1;
  profession = int8 profession;
  register_time = now;
  role_name = name;
  pos_x = none;
  pos_y = none;
}

-- AccountManager::createRole for the account at an address; `none` is a null pointer.
unfoldable pub create_role : Answers → ℕ → String → ℤ → Accounts → Option (ℤ × Accounts)
create_role db a name profession am = do
  ai ← account_at am a
  let sent = insert_role ai.account_id name profession db.clock ∷ am.statements
  let r = length am.role_heap
  let ai' = record ai { roles = insert db.auto_id r ai.roles }
  if db.executed
      then some (
        pos 0,
        record am {
          account_heap = set am.account_heap a ai';
          role_heap = am.role_heap ++ new_role db.auto_id name profession db.clock ∷ [];
          role_id_map = insert db.auto_id r am.role_id_map;
          role_name_map = insert name r am.role_name_map;
          statements = sent;
        },
      )
      else some (negsuc 0, record am { statements = sent })

-- AccountManager::getAccountInfoByToken, getAccountInfo and getRoleInfo; the last two by the name and
-- by the id.
unfoldable pub get_account_info_by_token : Accounts → String → Option ℕ
get_account_info_by_token am token = find token am.token_account_map

unfoldable pub get_account_info : Accounts → String → Option ℕ
get_account_info am name = find name am.name_map

unfoldable pub get_account_info_by_id : Accounts → ℤ → Option ℕ
get_account_info_by_id am id = find id am.id_map

unfoldable pub get_role_info : Accounts → ℤ → Option ℕ
get_role_info am id = find id am.role_id_map

unfoldable pub get_role_info_by_name : Accounts → String → Option ℕ
get_role_info_by_name am name = find name am.role_name_map
