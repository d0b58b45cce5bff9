-- ===== src/SoulServlet/Hunting.antt =====
-- soul_item_servlet.cpp: doHuntSoulItem.
use windnet_game.Prelude.{
  leb_ℤ, ◌-ℤ◌, ◌&&◌, ℕ, ◌≡◌, refl, ℤ, pos, ◌+ℤ◌, ltb_ℤ, int16, int32, Bool, true, false, Option,
  some, List, find, if◌then◌else◌, int_key,
}
use windnet_game.Item.{ItemTemplate}
use windnet_game.SoulsBag.{SoulItem, soul_at, soul_index, flush_new_soul_to_db}
use windnet_game.SoulsBag.FreeIndex.{Alive, Unused}
use windnet_game.Tables.{SoulHuntInfo, get_soul_hunt_info, rand_int}
use windnet_game.Role.{Role, level, souls_index, not_below_0}
use windnet_game.Session.{Player, Env}
use windnet_game.SoulServlet.{hunted, or_else}

-- A soul is at its address, with an index that is not negative.
abbrev Here : List (Option SoulItem) → ℕ → Type 0
Here souls a =
    (soul : SoulItem) × (k : ℕ) × (soul_at souls a ≡ some soul) × (soul_index soul ≡ pos k)

-- What is paid for, and the id that the new soul gets.
abbrev pub hunt_info : Env → ℤ → SoulHuntInfo → SoulHuntInfo
hunt_info env id here =
    or_else (get_soul_hunt_info env.soul_tables (int16 (int32 (id +ℤ pos 1)))) here

abbrev pub hunted_id : Env → ℤ
hunted_id env = if env.executed then env.auto_id else pos 0

-- Whether a hunt opens the next place: the role's level is high enough, and the dice say so.
abbrev pub is_lucky : Env → SoulHuntInfo → Role → Bool
is_lucky env info role =
    leb_ℤ info.level_need (level role)
    && ltb_ℤ (rand_int env.rand_level (pos 0) (pos 100)) (pos info.level_up_rate)

-- The role behind a hunt: the price is taken from the money and the points are added, neither below 0,
-- and the number of open places rises by one on luck.
abbrev pub charged : Env → SoulHuntInfo → Role → Role
charged env info role = record role {
  money = not_below_0 (int32 (role.money +ℤ int32 (pos 0 -ℤ info.money_need)));
  souls_value = not_below_0 (int32 (role.souls_value +ℤ info.soul_value));
  role_souls_index =
      if is_lucky env info role then int32 (souls_index role +ℤ pos 1) else role.role_souls_index;
}

-- The state after a hunt.
pub record HasHunted (env : Env) (info : SoulHuntInfo) (it : ItemTemplate) (p p' : Player)
    : Type 0 where
  pub role : p'.role ≡ charged env info p.role
  pub address : ℕ
  pub place : ℕ
  pub soul : SoulItem
  pub there : soul_at p'.souls.souls address ≡ some soul
  pub of_template : soul.template ≡ it
  pub at_place : soul_index soul ≡ pos place
  pub was_free : Unused p.souls.souls p.souls.hunted place
  pub by_id : find (hunted_id env) p'.souls.hunted ≡ some address
  pub alive : Alive p'.souls.souls p'.souls.hunted
  pub others : (id : ℤ) (b : ℕ) → find id p.souls.hunted ≡ some b → find id p'.souls.hunted ≡ some b

-- What flushNewToDB leaves as it is, and the id.
flushed :
    (executed : Bool) (auto_id role_id : ℤ) (soul : SoulItem)
    → soul.id ≡ pos 0
    → let new = (flush_new_soul_to_db executed auto_id role_id soul).0 in
      (new.template ≡ soul.template)
      × (new.place ≡ soul.place)
      × (new.id ≡ (if executed then auto_id else pos 0))
unfolding flush_new_soul_to_db
flushed true auto_id role_id soul e = (refl, refl, refl)
flushed false auto_id role_id soul e = (refl, refl, e)
