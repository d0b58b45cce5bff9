-- ===== src/Account/Load.antt =====
-- account_manager.cpp: loadFromDB, over the rows of its two queries.
use windnet_game.Prelude.{
  ℕ, ◌%◌, ◌^◌, ◌-◌, ℤ, pos, negsuc, int8, int16, none, some, List, [], ◌∷◌, ◌++◌, length, set,
  String, find, put, insert, int_key, string_key,
}
use windnet_game.Account.{Accounts, AccountInfo, RoleInfo, account_at}

pub record AccountRow : Type 0 where
  pub row_id : ℤ
  pub row_name : String
  pub row_passwd : String
  pub row_token : String
  pub row_device_id : String
  pub row_open_id : String

pub record InfoRow : Type 0 where
  pub row_account_id : ℤ
  pub row_role_id : ℤ
  pub row_lvl : ℤ
  pub row_profession : ℤ
  pub row_role_name : String
  pub row_time : ℤ

-- The first loop.
unfoldable pub load_account : AccountRow → Accounts → Accounts
load_account row am =
    let a = length am.account_heap in
    record am {
      account_heap =
          am.account_heap
          ++ record {
            account_id = row.row_id;
            account_name = row.row_name;
            passwd = row.row_passwd;
            token = row.row_token;
            device_id = row.row_device_id;
            sys_open_id = row.row_open_id;
            current = none;
            roles = [];
          }
            ∷ [];
      id_map = put row.row_id a am.id_map;
      name_map = put row.row_name a am.name_map;
      token_account_map = put row.row_token a am.token_account_map;
    }

-- An `int` as an `unsigned int`.
abbrev unsigned32 : ℤ → ℕ
unsigned32 (pos n) = n % 2 ^ 32
unsigned32 (negsuc n) = 2 ^ 32 - 1 - n % 2 ^ 32

abbrev info_of : InfoRow → RoleInfo
info_of row = record {
  role_id = row.row_role_id;
  level = int16 row.row_lvl;
  profession = int8 row.row_profession;
  register_time = unsigned32 row.row_time;
  role_name = row.row_role_name;
  pos_x = none;
  pos_y = none;
}

-- The body of the second loop for a role whose account is at `a`.
unfoldable pub load_info_of : ℕ → AccountInfo → InfoRow → Accounts → Accounts
load_info_of a ai row am =
    let r = length am.role_heap in
    record am {
      account_heap =
          set am.account_heap a (record ai { roles = insert row.row_role_id r ai.roles });
      role_heap = am.role_heap ++ info_of row ∷ [];
      role_id_map = insert row.row_role_id r am.role_id_map;
      role_name_map = insert row.row_role_name r am.role_name_map;
    }

-- The second loop: a role without an account is skipped.
unfoldable pub load_info : InfoRow → Accounts → Accounts
load_info row am = elim (find row.row_account_id am.id_map) [
  | none ↦ am
  | some a ↦ elim (account_at am a) [ none ↦ am | some ai ↦ load_info_of a ai row am ]
]

unfoldable pub load_accounts : List AccountRow → Accounts → Accounts
load_accounts [] am = am
load_accounts (row ∷ rows) am = load_accounts rows (load_account row am)

unfoldable pub load_infos : List InfoRow → Accounts → Accounts
load_infos [] am = am
load_infos (row ∷ rows) am = load_infos rows (load_info row am)

-- AccountManager::loadFromDB
unfoldable pub load_from_db : List AccountRow → List InfoRow → Accounts → Accounts
load_from_db rows infos am = load_infos infos (load_accounts rows am)
