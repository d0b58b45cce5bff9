-- ===== src/ItemServlet/Levels.antt =====
-- item_servlet.cpp: what the loop of doStrengthItem has checked when it ends.
use mathlib.Core.Bool.{true≢false}
use mathlib.Core.Path.{subst}
use windnet_game.Prelude.{
  ◌≢◌, ◌↔◌, ==ℤ_iff, List, [], ◌∷◌, length, ℕ, zero, suc, ◌≡◌, refl, sym, ap, ◌∙◌, inl, inr, ℤ, pos,
  negsuc, ◌+ℤ◌, ◌≤ℤ◌, ◌==ℤ◌, ltb_ℤ, int32, false, none, some, Option, Bool-cases, Option-cases,
  arith, pos_part,
}
use windnet_game.Prelude.Outcome.{fault, ok, need, bind-ok, ok-injective, step}
use windnet_game.Item.{Item, ItemTemplate}
use windnet_game.ItemBag.{get, deref}
use windnet_game.Tables.{ItemTables, StrengthMoney, get_template, get_strength_equip_money}
use windnet_game.Role.{Role, level}
use windnet_game.Session.{Player, Env}
use windnet_game.Bson.{Object, get_int_val}
use windnet_game.ItemServlet.Climbing.{Climb, stay, rise, sum_from, IsAffordable, IsPaid}
use windnet_game.ItemServlet.Strengthen.{
  StrengthEnd, failed, missing, strengthened, strength_loop, strength_end, do_strength_item, throws,
}

ltb_ℤ_false→≤ℤ : (a b : ℤ) → ltb_ℤ a b ≡ false → b ≤ℤ a
ltb_ℤ_false→≤ℤ a b h = ground arith

not_failed :
    {error quality lvl money_need : ℤ} {new : Option ItemTemplate}
    → ok (failed error) ≢ ok (strengthened quality lvl new money_need)
not_failed e = cc

not_missing :
    {quality lvl money_need : ℤ} {new : Option ItemTemplate}
    → ok missing ≢ ok (strengthened quality lvl new money_need)
not_missing e = cc

abbrev level_part : StrengthEnd → ℤ
level_part (strengthened quality lvl new money_need) = lvl
level_part _ = pos 0

abbrev template_part : StrengthEnd → Option ItemTemplate
template_part (strengthened quality lvl new money_need) = new
template_part _ = none

abbrev money_part : StrengthEnd → ℤ
money_part (strengthened quality lvl new money_need) = money_need
money_part _ = pos 0

abbrev quality_part : StrengthEnd → ℤ
quality_part (strengthened quality lvl new money_need) = quality
quality_part _ = pos 0

-- One round of a loop that gets to its end, and the rounds behind it.
record Round (t : ItemTables) (role : Role) (n : ℕ) (quality lvl next total : ℤ) (end : StrengthEnd)
    : Type 0 where
  m : StrengthMoney
  it : ItemTemplate
  priced : get_strength_equip_money t quality lvl ≡ some m
  sold : (m.equip_money ==ℤ negsuc 0) ≡ false
  allowed : m.new_level ≤ℤ level role
  affordable : int32 (total +ℤ m.equip_money) ≤ℤ role.money
  found : get_template t next ≡ some it
  behind :
      strength_loop t role n m.new_quality m.new_level it.strength_next_level_id
        (some it)
        (int32 (total +ℤ m.equip_money))
      ≡ ok end

throws-ok : (o : Option StrengthMoney) (m : StrengthMoney) → throws o ≡ ok m → o ≡ some m
throws-ok none m e = absurd cc
throws-ok (some m') m e = ap some (ok-injective _ _ e)

one_round :
    (t : ItemTables) (role : Role) (n : ℕ) (quality lvl next total : ℤ) (new : Option ItemTemplate)
    (quality' lvl' money_need : ℤ) (new' : Option ItemTemplate)
    → strength_loop t role (suc n) quality lvl next new total
      ≡ ok (strengthened quality' lvl' new' money_need)
    → Round t role n quality lvl next total (strengthened quality' lvl' new' money_need)
unfolding strength_loop
one_round t role n quality lvl next total new quality' lvl' money_need new' e =
    let (m, q, e₁) = bind-ok (throws (get_strength_equip_money t quality lvl)) _ _ e in
    let sum = int32 (total +ℤ m.equip_money) in
    elim (Bool-cases (m.equip_money ==ℤ negsuc 0)) [
      | inl bad ↦ absurd (not_failed (rw bad at e₁))
      | inr good ↦ elim (Bool-cases (ltb_ℤ (level role) m.new_level)) [
        | inl high ↦ absurd (not_failed (rw (good, high) at e₁))
        | inr low ↦ elim (Bool-cases (ltb_ℤ role.money sum)) [
          | inl poor ↦ absurd (not_failed (rw (good, low, poor) at e₁))
          | inr rich ↦ elim (Option-cases (get_template t next)) [
            | inl gone ↦ absurd (not_missing (rw (good, low, rich, gone) at e₁))
            | inr (it, found) ↦ record {
              m = m;
              it = it;
              priced = throws-ok (get_strength_equip_money t quality lvl) m q;
              sold = good;
              allowed = ltb_ℤ_false→≤ℤ (level role) m.new_level low;
              affordable = ltb_ℤ_false→≤ℤ role.money sum rich;
              found = found;
              behind = rw (good, low, rich, found) at e₁;
            }
          ]
        ]
      ]
    ]

differs : (a b : ℤ) → (a ==ℤ b) ≡ false → a ≢ b
differs a b h e = absurd (true≢false (sym ((==ℤ_iff a b).1 e) ∙ h))

loop-IsPaid :
    (t : ItemTables) (role : Role) (n : ℕ) (quality lvl next total : ℤ) (new : Option ItemTemplate)
    (quality' lvl' money_need : ℤ) (new' : Option ItemTemplate)
    → strength_loop t role n quality lvl next new total
      ≡ ok (strengthened quality' lvl' new' money_need)
    → IsPaid t role n quality lvl next new total quality' lvl' new' money_need
unfolding strength_loop
loop-IsPaid t role zero quality lvl next total new quality' lvl' money_need new' e =
    let same = ok-injective _ _ e in
    (
      [],
      subst (λ x. Climb t role quality lvl next new [] x lvl' new') (ap quality_part same)
          (subst (λ x. Climb t role quality lvl next new [] quality x new') (ap level_part same)
            (subst (λ x. Climb t role quality lvl next new [] quality lvl x) (ap template_part same)
              (stay quality lvl next new))),
      refl,
      tt,
      sym (ap money_part same),
    )
loop-IsPaid t role (suc n) quality lvl next total new quality' lvl' money_need new' e =
    let r = one_round t role n quality lvl next total new quality' lvl' money_need new' e in
    let (prices, climb, size, afford, sum) =
      loop-IsPaid t role n r.m.new_quality r.m.new_level r.it.strength_next_level_id
        (int32 (total +ℤ r.m.equip_money)) (some r.it) quality' lvl' money_need new' r.behind in
    (
      r.m.equip_money ∷ prices,
      rise r.m r.it r.priced (differs _ _ r.sold) r.allowed r.found climb,
      ap suc size,
      (r.affordable, afford),
      sum,
    )

≤ℤ→ltb_ℤ_false : (a b : ℤ) → b ≤ℤ a → ltb_ℤ a b ≡ false
≤ℤ→ltb_ℤ_false a b h = ground arith

same_false : (a b : ℤ) → a ≢ b → (a ==ℤ b) ≡ false
same_false a b h = elim (Bool-cases (a ==ℤ b)) [
  | inl same ↦ absurd (h ((==ℤ_iff a b).0 same))
  | inr other ↦ other
]

Climb-loop :
    (t : ItemTables) (role : Role) (n : ℕ) {quality lvl next : ℤ} (total : ℤ)
    {new : Option ItemTemplate} (prices : List ℤ) {quality' lvl' : ℤ} {new' : Option ItemTemplate}
    → Climb t role quality lvl next new prices quality' lvl' new'
    → length prices ≡ n
    → IsAffordable role.money total prices
    → strength_loop t role n quality lvl next new total
      ≡ ok (strengthened quality' lvl' new' (sum_from total prices))
unfolding strength_loop
Climb-loop t role zero total [] (stay quality lvl next new) size afford = refl
Climb-loop t role (suc n) total [] (stay quality lvl next new) size afford =
    absurd (omega (arith, size))
Climb-loop t role zero total (price ∷ prices) (rise m it priced sold low found climb) size afford =
    absurd (omega (arith, size))
Climb-loop t role (suc n) {quality} {lvl} {next} total {new} (price ∷ prices)
      (rise m it priced sold low found climb) size (rich, afford) =
    step (throws (get_strength_equip_money t quality lvl)) _ m _ (ap throws priced) (
      rw
        (
          same_false m.equip_money (negsuc 0) sold,
          ≤ℤ→ltb_ℤ_false (level role) m.new_level low,
          ≤ℤ→ltb_ℤ_false role.money (int32 (total +ℤ m.equip_money)) rich,
          found,
        )
        (Climb-loop t role n (int32 (total +ℤ m.equip_money)) prices climb (omega (arith, size))
          afford))

-- Whatever the tables say: the loop of `doStrengthItem` for n levels gets to its end with a quality, a
-- level, a template and a sum of money exactly when the tables lead to these by n levels, each sold and
-- not above the role's level, whose prices, added one by one as an `int`, make this sum, and no sum on
-- the way is more than the role's money.
pub strength_loop-IsPaid :
    (t : ItemTables) (role : Role) (n : ℕ) (quality lvl next total : ℤ) (new : Option ItemTemplate)
    (quality' lvl' money_need : ℤ) (new' : Option ItemTemplate)
    → (strength_loop t role n quality lvl next new total
        ≡ ok (strengthened quality' lvl' new' money_need))
      ↔ IsPaid t role n quality lvl next new total quality' lvl' new' money_need
strength_loop-IsPaid t role n quality lvl next total new quality' lvl' money_need new' = (
  loop-IsPaid t role n quality lvl next total new quality' lvl' money_need new',
  λ (prices, climb, size, afford, sum).
      Climb-loop t role n total prices climb size afford
      ∙ ap (λ x. ok (strengthened quality' lvl' new' x)) (sym sum),
)

none_of : (count : ℤ) → count ≤ℤ pos 0 → pos_part count ≡ 0
none_of (pos n) low = omega (arith, low)
none_of (negsuc n) low = refl

-- A `doStrengthItem` of an item that is there for no level, or for less, uses a null pointer.
pub do_strength_item-no_level :
    (env : Env) (request : Object) (p : Player) (id count : ℤ) (a : ℕ) (it : Item)
    → get_int_val "Id" request ≡ ok id
    → get_int_val "Count" request ≡ ok count
    → get p.bag id ≡ some a
    → deref p.bag a ≡ some it
    → count ≤ℤ pos 0
    → do_strength_item env request p ≡ fault
unfolding do_strength_item get strength_loop strength_end
do_strength_item-no_level env request p id count a it asks counts found there low =
    step (get_int_val "Id" request) _ _ _ asks (
      step (get_int_val "Count" request) _ _ _ counts (
        rw found (step (need (deref p.bag a)) _ _ _ (ap need there) (rw (none_of count low) refl))))
