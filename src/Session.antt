-- ===== src/Session.antt =====
-- player_session.h, and what the servlets of a session share: the role and its bags (role.h), the
-- items that it wears, and the messages sent to the client. A message is the object before it is
-- turned into bytes; the latest stands first.
use windnet_game.Prelude.{
  ◌≡◌, ap, ℕ, ℤ, negsuc, pos, Bool, true, Option, some, List, [], ◌∷◌, String,
}
use windnet_game.Prelude.Outcome.{Outcome, ok, need, ◌>>=◌}
use windnet_game.Item.{Statement}
use windnet_game.ItemBag.{Store}
use windnet_game.SoulsBag.{SoulStore}
use windnet_game.Tables.{ItemTables, SoulTables}
use windnet_game.Role.{Role, flush_role}
use windnet_game.Bson.{Object, message, body_of, bool_value, int_value}

-- The state of a session, in which `bag.db` has the statements of all of its servlets. `role_info_id`
-- is the id in the account's RoleInfo; `equips` has the addresses of Role::m_equips.
pub record Player : Type 0 where
  pub role : Role
  pub role_info_id : ℤ
  pub bag : Store
  pub souls : SoulStore
  pub equips : List ℕ
  pub sent : List Object

-- ps->sendData
abbrev pub send : Object → Player → Player
send obj p = record p { sent = obj ∷ p.sent }

-- conn->execute
abbrev pub execute : Statement → Player → Player
execute statement p = record p { bag = record (p.bag) { db = statement ∷ p.bag.db } }

-- role->flushToDB
abbrev pub save_role : Player → Player
save_role p = execute (flush_role p.role) p

abbrev pub with_role : (Role → Role) → Player → Player
with_role f p = record p { role = f p.role }

-- What a request meets outside the session: the tables, the database's answer to an insertion (whether
-- it took it, and the id), the two readings of the clock and what rand() gives in turn.
pub record Env : Type 0 where
  pub item_tables : ItemTables
  pub soul_tables : SoulTables
  pub executed : Bool
  pub auto_id : ℤ
  pub now : ℕ
  pub later : ℕ
  pub rand_weight : ℕ
  pub rand_item : ℕ
  pub rand_level : ℕ

-- A method of the bag.
abbrev pub with_bag : (Store → Option Store) → Player → Outcome Player
with_bag f p = do s ← need (f p.bag); ok (record p { bag = s })

-- A method of the bag that does not fault.
pub with_bag-ok :
    (f : Store → Option Store) (p : Player) (s : Store)
    → f p.bag ≡ some s
    → with_bag f p ≡ ok (record p { bag = s })
with_bag-ok f p s e = ap (λ o. need o >>= (λ t. ok (record p { bag = t }))) e

-- The ends of a handler: without a word, or with a message.
abbrev pub quiet : Player → Outcome (Bool × Player)
quiet p = ok (true, p)

abbrev pub reply : String → Object → Player → Outcome (Bool × Player)
reply command body p = ok (true, send (message command body) p)

-- The player that a handler leaves, in the session.
abbrev pub with_player : Outcome (Bool × Player) → Outcome (Bool × Option Player)
with_player r = do (ret, p) ← r; ok (ret, some p)

-- The body that most handlers send when they fail, and when they have nothing else to say.
abbrev pub error_body : ℤ → Object
error_body code = body_of (("Error", bool_value true) ∷ ("ErrorMsg", int_value code) ∷ [])

abbrev pub success_body : Object
success_body = body_of (("Success", bool_value true) ∷ [])

-- error_code.h
abbrev pub no_error : ℤ
no_error = negsuc 0

abbrev pub error_no_enough_money : ℤ
error_no_enough_money = pos 121

abbrev pub buy_item_error_item_bag_full : ℤ
buy_item_error_item_bag_full = pos 146

abbrev pub buy_item_error_no_enough_money : ℤ
buy_item_error_no_enough_money = pos 152

abbrev pub strength_gem_no_enough_fragment : ℤ
strength_gem_no_enough_fragment = pos 158

abbrev pub strength_equip_error_role_level_to_high : ℤ
strength_equip_error_role_level_to_high = pos 200

abbrev pub strength_equip_error_fail : ℤ
strength_equip_error_fail = pos 201
