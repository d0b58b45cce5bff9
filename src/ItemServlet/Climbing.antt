-- ===== src/ItemServlet/Climbing.antt =====
-- item_servlet.cpp: the levels that doStrengthItem gives, described by the tables.
use windnet_game.Prelude.{
  ℕ, ◌≡◌, ◌≢◌, ℤ, negsuc, ◌+ℤ◌, ◌≤ℤ◌, int32, some, Option, List, [], ◌∷◌, length,
}
use windnet_game.Item.{ItemTemplate}
use windnet_game.Tables.{ItemTables, StrengthMoney, get_template, get_strength_equip_money}
use windnet_game.Role.{Role, level}

-- A climb: the levels that the tables give, one after another from a quality, a level and the id of
-- the next template, each with its price, up to a last quality, level and template. A level's price
-- is not -1, the level is not above the role's, and its template is there.
pub data Climb (t : ItemTables) (role : Role)
    : ℤ → ℤ → ℤ → Option ItemTemplate → List ℤ → ℤ → ℤ → Option ItemTemplate → Type 0 where
  stay :
      (quality lvl next : ℤ) (new : Option ItemTemplate)
      → Climb t role quality lvl next new [] quality lvl new
  rise :
      {quality lvl next quality' lvl' : ℤ} {new new' : Option ItemTemplate} {prices : List ℤ}
      (m : StrengthMoney) (it : ItemTemplate)
      → get_strength_equip_money t quality lvl ≡ some m
      → m.equip_money ≢ negsuc 0
      → m.new_level ≤ℤ level role
      → get_template t next ≡ some it
      → Climb t role m.new_quality m.new_level it.strength_next_level_id
          (some it)
          prices
          quality'
          lvl'
          new'
      → Climb t role quality lvl next new (m.equip_money ∷ prices) quality' lvl' new'

-- The sum of prices, added one by one to an `int`.
abbrev pub sum_from : ℤ → List ℤ → ℤ
sum_from total [] = total
sum_from total (price ∷ prices) = sum_from (int32 (total +ℤ price)) prices

-- No sum on the way is more than the money.
abbrev pub IsAffordable : ℤ → ℤ → List ℤ → Type 0
IsAffordable money total [] = Unit {0}
IsAffordable money total (price ∷ prices) =
    (int32 (total +ℤ price) ≤ℤ money) × IsAffordable money (int32 (total +ℤ price)) prices

-- A climb of n levels that the role can pay for, and what it costs.
abbrev pub IsPaid :
    ItemTables
    → Role
    → ℕ
    → ℤ
    → ℤ
    → ℤ
    → Option ItemTemplate
    → ℤ
    → ℤ
    → ℤ
    → Option ItemTemplate
    → ℤ
    → Type 0
IsPaid t role n quality lvl next new total quality' lvl' new' money_need =
    (prices : List ℤ) × Climb t role quality lvl next new prices quality' lvl' new'
    × (length prices ≡ n)
    × IsAffordable role.money total prices
    × (money_need ≡ sum_from total prices)
