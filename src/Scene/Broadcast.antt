-- ===== src/Scene/Broadcast.antt =====
-- scene.cpp: whom Scene::broadcast sends to.
use mathlib.Core.Option.{some-ne-none}
use mathlib.Core.Path.{subst}
use windnet_game.Prelude.{
  ℕ, ◌≡◌, refl, sym, ap, ◌∙◌, inl, inr, ℤ, ◌==ℤ◌, ==ℤ_iff, false, none, [], ◌∷◌, Map, find, put,
  insert, erase, int_key, find-put, find-erase, Bool-cases, Option-cases, ltb_ℤ, arith,
}
use windnet_game.Scene.{add_player, remove_player, receivers, all_sessions}

-- No role id stands twice in the map.
abbrev pub IsDistinct : Map ℤ ℕ → Type 0
IsDistinct [] = Unit
IsDistinct ((id, ps) ∷ m) = (find id m ≡ none) × IsDistinct m

-- The maps of players that a scene can have.
pub data Reach : Map ℤ ℕ → Type 0 where
  start : Reach []
  enters : (id : ℤ) (ps : ℕ) (m : Map ℤ ℕ) → Reach m → Reach (add_player id ps m)
  leaves : (id : ℤ) (m : Map ℤ ℕ) → Reach m → Reach (remove_player id m)

==ℤ_comm : (a b : ℤ) → (a ==ℤ b) ≡ (b ==ℤ a)
==ℤ_comm a b = ground arith

-- A key that is not found at the head or behind it.
absent_parts :
    (id j : ℤ) (w : ℕ) (m : Map ℤ ℕ)
    → find id ((j, w) ∷ m) ≡ none
    → ((j ==ℤ id) ≡ false) × (find id m ≡ none)
unfolding find
absent_parts id j w m e = elim (Bool-cases (j ==ℤ id)) [
  | inl same ↦ absurd (some-ne-none w (sym (rw same refl) ∙ e))
  | inr other ↦ (other, sym (rw other refl) ∙ e)
]

put-IsDistinct :
    (id : ℤ) (ps : ℕ) (m : Map ℤ ℕ) → find id m ≡ none → IsDistinct m → IsDistinct (put id ps m)
unfolding put find
put-IsDistinct id ps [] e d = (refl, tt)
put-IsDistinct id ps ((j, w) ∷ m) e (fresh, d) =
    let (other, absent) = absent_parts id j w m e in
    let kept : find j (put id ps m) ≡ none = rw (find-put id j ps m, ==ℤ_comm id j, other) fresh in
    elim (Bool-cases (ltb_ℤ id j)) [
      | inl low ↦ rw (other, low) (e, (fresh, d))
      | inr high ↦ rw (other, high) (kept, put-IsDistinct id ps m absent d)
    ]

erase-IsDistinct : (id : ℤ) (m : Map ℤ ℕ) → IsDistinct m → IsDistinct (erase id m)
unfolding erase
erase-IsDistinct id [] d = tt
erase-IsDistinct id ((j, w) ∷ m) (fresh, d) = elim (Bool-cases (j ==ℤ id)) [
  | inl same ↦ rw same (erase-IsDistinct id m d)
  | inr other ↦
      rw other (rw (find-erase id j m, ==ℤ_comm id j, other) fresh, erase-IsDistinct id m d)
]

insert-IsDistinct : (id : ℤ) (ps : ℕ) (m : Map ℤ ℕ) → IsDistinct m → IsDistinct (insert id ps m)
unfolding insert
insert-IsDistinct id ps m d = elim (Option-cases (find id m)) [
  | inl e ↦ rw (insert, e) (put-IsDistinct id ps m e d)
  | inr (w, e) ↦ rw (insert, e) d
]

Reach-IsDistinct : (m : Map ℤ ℕ) → Reach m → IsDistinct m
unfolding add_player remove_player
Reach-IsDistinct _ start = tt
Reach-IsDistinct _ (enters id ps m r) = insert-IsDistinct id ps m (Reach-IsDistinct m r)
Reach-IsDistinct _ (leaves id m r) = erase-IsDistinct id m (Reach-IsDistinct m r)

erase_absent : (id : ℤ) (m : Map ℤ ℕ) → find id m ≡ none → erase id m ≡ m
unfolding erase find
erase_absent id [] e = refl
erase_absent id ((j, w) ∷ m) e =
    let (other, absent) = absent_parts id j w m e in
    rw other (ap (λ t. (j, w) ∷ t) (erase_absent id m absent))

receivers-erase :
    (self : ℤ) (m : Map ℤ ℕ) → IsDistinct m → receivers self m ≡ all_sessions (erase self m)
unfolding receivers erase
receivers-erase self [] d = refl
receivers-erase self ((id, ps) ∷ m) (fresh, d) = elim (Bool-cases (id ==ℤ self)) [
  | inl same ↦
      let same_id : id ≡ self = (==ℤ_iff id self).0 same in
      rw (==ℤ_comm self id, same)
        (ap all_sessions (sym (erase_absent self m (subst (λ k. find k m ≡ none) same_id fresh))))
  | inr other ↦ rw (==ℤ_comm self id, other) (ap (λ t. ps ∷ t) (receivers-erase self m d))
]

-- In whatever way players have entered and left a scene, `broadcast` sends to the sessions of all of
-- its players but `self`, to each once and in their order.
pub receivers-Reach :
    (self : ℤ) (m : Map ℤ ℕ) → Reach m → receivers self m ≡ all_sessions (remove_player self m)
unfolding remove_player
receivers-Reach self m r = receivers-erase self m (Reach-IsDistinct m r)
