-- ===== src/Task/Timers.antt =====
-- timer.cpp: addTimer.
use windnet_game.Prelude.{
  ℤ, ◌≤ℤ◌, leb_ℤ, List, [], ◌∷◌, ◌++◌, if◌then◌else◌, ◌≡◌, ◌⊎◌, refl, ap, true, false, arith,
  Bool-cases, inl, inr,
}

-- TimerItem. A pointer to one is the item itself, since nothing writes to it.
pub record TimerItem : Type 0 where
  pub expire_time : ℤ
  pub session_id : ℤ

-- The loop of TimerManager::addTimer and the insertion behind it. Where the loop inserts the item and
-- leaves, `it` still stands at the element that comes after.
unfoldable pub add_timer : TimerItem → List TimerItem → List TimerItem
add_timer item [] = item ∷ []
add_timer item (t ∷ timers) =
    let rest = add_timer item timers in
    if leb_ℤ item.expire_time t.expire_time then item ∷ item ∷ t ∷ timers else t ∷ rest

-- No timer expires before the one in front of it.
abbrev pub IsSorted : List TimerItem → Type 0
IsSorted [] = Unit
IsSorted (t ∷ []) = Unit
IsSorted (t ∷ u ∷ timers) = (t.expire_time ≤ℤ u.expire_time) × IsSorted (u ∷ timers)

-- Every timer expires before the item.
abbrev AllBefore : TimerItem → List TimerItem → Type 0
AllBefore item [] = Unit
AllBefore item (t ∷ timers) = (leb_ℤ item.expire_time t.expire_time ≡ false) × AllBefore item timers

-- The list with the item put in between those that expire before it and the others, once behind
-- them all, or twice in front of one that does not expire before it.
abbrev pub IsInserted : TimerItem → List TimerItem → List TimerItem → Type 0
IsInserted item timers result =
    (before : List TimerItem) × AllBefore item before
    × (((timers ≡ before) × (result ≡ before ++ item ∷ []))
        ⊎ ((t : TimerItem) × (behind : List TimerItem) × (timers ≡ before ++ t ∷ behind)
            × (item.expire_time ≤ℤ t.expire_time)
            × (result ≡ before ++ item ∷ item ∷ t ∷ behind)))

≤ℤ_refl : (a : ℤ) → a ≤ℤ a
≤ℤ_refl a = omega arith

leb_ℤ→≤ℤ : (a b : ℤ) → leb_ℤ a b ≡ true → a ≤ℤ b
leb_ℤ→≤ℤ a b h = ground arith

leb_ℤ_false→≤ℤ : (a b : ℤ) → leb_ℤ a b ≡ false → b ≤ℤ a
leb_ℤ_false→≤ℤ a b h = ground arith

add_timer_sorts :
    (item : TimerItem) (timers : List TimerItem)
    → IsSorted timers
    → IsSorted (add_timer item timers)
unfolding add_timer
add_timer_sorts item [] h = tt
add_timer_sorts item (t ∷ []) h = elim (Bool-cases (leb_ℤ item.expire_time t.expire_time)) [
  | inl low ↦ rw low (≤ℤ_refl item.expire_time, (leb_ℤ→≤ℤ item.expire_time t.expire_time low, tt))
  | inr high ↦ rw high (leb_ℤ_false→≤ℤ item.expire_time t.expire_time high, tt)
]
add_timer_sorts item (t ∷ u ∷ timers) (le, h) =
    elim (Bool-cases (leb_ℤ item.expire_time t.expire_time)) [
      | inl low ↦
          rw low (≤ℤ_refl item.expire_time, (leb_ℤ→≤ℤ item.expire_time t.expire_time low, (le, h)))
      | inr high ↦
          let rest = add_timer_sorts item (u ∷ timers) h in
          elim (Bool-cases (leb_ℤ item.expire_time u.expire_time)) [
            | inl below ↦
                rw (high, below)
                  (leb_ℤ_false→≤ℤ item.expire_time t.expire_time high, rw below at rest)
            | inr above ↦ rw (high, above) (le, rw above at rest)
          ]
    ]

IsInserted-behind :
    (item t : TimerItem) (timers result : List TimerItem)
    → leb_ℤ item.expire_time t.expire_time ≡ false
    → IsInserted item timers result
    → IsInserted item (t ∷ timers) (t ∷ result)
IsInserted-behind item t timers result high (before, all, inl (e, f)) =
    (t ∷ before, (high, all), inl (ap (◌∷◌ t) e, ap (◌∷◌ t) f))
IsInserted-behind item t timers result high (before, all, inr (u, behind, e, le, f)) =
    (t ∷ before, (high, all), inr (u, behind, ap (◌∷◌ t) e, le, ap (◌∷◌ t) f))

add_timer_inserts :
    (item : TimerItem) (timers : List TimerItem) → IsInserted item timers (add_timer item timers)
unfolding add_timer
add_timer_inserts item [] = ([], tt, inl (refl, refl))
add_timer_inserts item (t ∷ timers) = elim (Bool-cases (leb_ℤ item.expire_time t.expire_time)) [
  | inl low ↦
      ([], tt, inr (t, timers, refl, leb_ℤ→≤ℤ item.expire_time t.expire_time low, rw low refl))
  | inr high ↦
      rw high (
        IsInserted-behind item t timers (add_timer item timers) high
          (add_timer_inserts item timers))
]

-- `addTimer` keeps the timers in the order of their times. It leaves the timers in front that expire
-- before the item, and puts the item behind them, once if there is no other timer, and twice in front
-- of the others if there are some, whose order it keeps.
pub add_timer-IsSorted :
    (item : TimerItem) (timers : List TimerItem)
    → IsSorted timers
    → IsSorted (add_timer item timers) × IsInserted item timers (add_timer item timers)
add_timer-IsSorted item timers h = (add_timer_sorts item timers h, add_timer_inserts item timers)
