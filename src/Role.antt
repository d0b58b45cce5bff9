-- ===== src/Role.antt =====
-- role.h and role.cpp: the fields of a role, which are those of its message, each an `int32`.
use windnet_game.Prelude.{
  ℤ, pos, ◌+ℤ◌, ltb_ℤ, int16, int32, String, Option, none, some, List, [], ◌∷◌, if◌then◌else◌, Bool,
}
use windnet_game.Item.{Statement, update_role}

pub record Role : Type 0 where
  pub role_id : ℤ
  pub role_profession : ℤ
  pub money : ℤ
  pub gold : ℤ
  pub role_name : String
  pub role_level : ℤ
  pub role_vip_level : ℤ
  pub role_exp : ℤ
  pub role_souls_index : ℤ
  pub souls_value : ℤ

-- The getters that narrow.
abbrev pub profession : Role → ℤ
profession role = int16 role.role_profession

abbrev pub level : Role → ℤ
level role = int16 role.role_level

abbrev pub vip_level : Role → ℤ
vip_level role = int16 role.role_vip_level

abbrev pub souls_index : Role → ℤ
souls_index role = int16 role.role_souls_index

abbrev pub not_below_0 : ℤ → ℤ
not_below_0 v = if ltb_ℤ v (pos 0) then pos 0 else v

-- Role::money, Role::addMoney, Role::addSoulsValue, Role::addSoulsIndex
abbrev pub set_money : ℤ → Role → Role
set_money val role = record role { money = val }

unfoldable pub add_money : ℤ → Role → Role
add_money val role = record role { money = not_below_0 (int32 (role.money +ℤ val)) }

unfoldable pub add_souls_value : ℤ → Role → Role
add_souls_value val role = record role {
  souls_value = not_below_0 (int32 (role.souls_value +ℤ val));
}

unfoldable pub add_souls_index : ℤ → Role → Role
add_souls_index val role = record role { role_souls_index = int32 (souls_index role +ℤ int16 val) }

-- The update of Role::flushToDB.
unfoldable pub flush_role : Role → Statement
flush_role role =
    update_role role.money role.gold (profession role) (level role) role.role_exp role.role_name
      (vip_level role) (souls_index role) role.souls_value role.role_id

-- The row that Role::loadFromDB reads.
pub record RoleRow : Type 0 where
  pub row_money : ℤ
  pub row_gold : ℤ
  pub row_profession : ℤ
  pub row_lvl : ℤ
  pub row_exp : ℤ
  pub row_name : String
  pub row_vip_lvl : ℤ
  pub row_souls_index : ℤ
  pub row_souls_value : ℤ

-- The setters of loadFromDB narrow nothing: they are those of the message.
unfoldable pub role_of : ℤ → RoleRow → Role
role_of id row = record {
  role_id = id;
  role_profession = row.row_profession;
  money = row.row_money;
  gold = row.row_gold;
  role_name = row.row_name;
  role_level = row.row_lvl;
  role_vip_level = row.row_vip_lvl;
  role_exp = row.row_exp;
  role_souls_index = row.row_souls_index;
  souls_value = row.row_souls_value;
}

-- Role::loadFromDB, for the rows that the query gives: without a row the role stays as it is, and a
-- level for which there are no attributes fails the assertion.
unfoldable pub load_role : (ℤ → Bool) → ℤ → List RoleRow → Role → Option Role
load_role has_attribute id [] role = some role
load_role has_attribute id (row ∷ rows) role =
    let loaded = role_of id row in if has_attribute (level loaded) then some loaded else none
