-- ===== src/SoulServlet/Swallowing.antt =====
-- soul_item_servlet.cpp: doSwallowAll with more than one hunted soul.
use mathlib.Core.Option.{some-ne-none}
use windnet_game.Prelude.Places.{get_or-set-none}
use windnet_game.Prelude.{
  int32, ◌+ℤ◌, ℕ, ◌≡◌, ◌≢◌, ◌⊎◌, refl, sym, ap, ◌∙◌, inl, inr, ℤ, pos, ltb_ℤ, Bool, true, false,
  none, some, [], ◌∷◌, set, Map, erase, int_key, Bool-cases, Option-cases, find, find-erase,
  ==ℤ_iff, ◌==ℤ◌,
}
use windnet_game.Prelude.Outcome.{need-cases, step_fault, Outcome, fault, ok, need, ◌>>=◌, step}
use windnet_game.SoulsBag.{
  SoulItem, SoulStore, add_exp, soul_at, remove_hunted_soul, set_soul_type, deleted_type,
}
use windnet_game.Tables.{SoulInfo, get_soul_info, get_level_by_exp}
use windnet_game.Session.{Player, Env}
use windnet_game.SoulServlet.{soul_of, write_soul, flush_soul, with_souls}
use windnet_game.SoulServlet.Swallow.{swallow_each, swallow_copy, do_swallow_all, best_soul}

-- What the loop does with a soul whose level is known.
abbrev swallow_one_step :
    Env → ℕ → ℕ → Map ℤ ℕ → SoulItem → SoulInfo → Player → Outcome (Bool × Player)
swallow_one_step env a b m soul info p = do
  p₁ ← flush_soul b (write_soul b (set_soul_type deleted_type soul) p)
  p₂ ← with_souls (remove_hunted_soul b true) p₁
  freed ← soul_of p₂ b
  from ← soul_of p₂ a
  let gain = int32 (info.swallow_exp +ℤ freed.exp)
  swallow_each env a m (write_soul a (add_exp gain from) p₂)

freed :
    (b : ℕ) (s : SoulStore) (soul : SoulItem)
    → soul_at s.souls b ≡ some soul
    → remove_hunted_soul b true s
      ≡ some (record s { hunted = erase soul.id s.hunted; souls = set s.souls b none })
unfolding remove_hunted_soul
freed b s soul e = rw (remove_hunted_soul, e) refl

swallow_one :
    (env : Env) (a b : ℕ) (m : Map ℤ ℕ) (soul : SoulItem) (info : SoulInfo) (p : Player)
    → swallow_one_step env a b m soul info p ≡ fault
unfolding soul_at
swallow_one env a b m soul info p =
    let souls = set p.souls.souls b (some (set_soul_type deleted_type soul)) in
    elim (Option-cases (soul_at souls b)) [
      | inl e ↦ step_fault _ _ (step_fault _ _ (ap need e))
      | inr (there, e) ↦ step _ _ _ _ (step _ _ _ _ (ap need e) refl) (
          step _ _ _ _ (step _ _ _ _ (ap need (freed b _ there e)) refl)
            (step_fault _ _ (ap need (get_or-set-none souls b))))
    ]

-- The loop does not get past its first soul.
swallow_each-stops :
    (env : Env) (a b : ℕ) (id : ℤ) (m : Map ℤ ℕ) (p : Player)
    → (swallow_each env a ((id, b) ∷ m) p ≡ fault)
      ⊎ (swallow_each env a ((id, b) ∷ m) p ≡ ok (false, p))
unfolding swallow_each
swallow_each-stops env a b id m p = elim (need-cases (soul_at p.souls.souls b)) [
  | inl e ↦ inl (step_fault _ _ e)
  | inr (soul, e) ↦
      elim (need-cases (get_level_by_exp env.soul_tables soul.template.quality soul.exp)) [
        | inl f ↦ inl (step _ _ _ _ e (step_fault _ _ f))
        | inr (lvl, f) ↦ elim (Bool-cases (ltb_ℤ lvl (pos 0))) [
          | inl low ↦ inr (step _ _ _ _ e (step _ _ _ _ f (rw low refl)))
          | inr high ↦ elim (need-cases (get_soul_info env.soul_tables soul.template.quality lvl)) [
            | inl g ↦ inl (step _ _ _ _ e (step _ _ _ _ f (rw high (step_fault _ _ g))))
            | inr (none, g) ↦ inr (step _ _ _ _ e (step _ _ _ _ f (rw high (step _ _ _ _ g refl))))
            | inr (some info, g) ↦ inl (
                step _ _ _ _ e
                  (step _ _ _ _ f (rw high (step _ _ _ _ g (swallow_one env a b m soul info p)))))
          ]
        ]
      ]
]

find_cons :
    (m : Map ℤ ℕ) (i : ℤ) (a : ℕ)
    → find i m ≡ some a
    → (id : ℤ) × (c : ℕ) × (rest : Map ℤ ℕ) × (m ≡ (id, c) ∷ rest)
unfolding find
find_cons [] i a e = absurd (some-ne-none a (sym e))
find_cons ((id, c) ∷ rest) i a e = (id, c, rest, refl)

-- The souls that are left to swallow, when there are two ids among the hunted souls.
erase_one :
    (k : ℤ) (m : Map ℤ ℕ) (i j : ℤ) (a b : ℕ)
    → find i m ≡ some a
    → find j m ≡ some b
    → i ≢ j
    → (id : ℤ) × (c : ℕ) × (rest : Map ℤ ℕ) × (erase k m ≡ (id, c) ∷ rest)
erase_one k m i j a b e f ne = elim (Bool-cases (k ==ℤ i)) [
  | inr other ↦ find_cons (erase k m) i a (rw (find-erase k i m, other) e)
  | inl same ↦ elim (Bool-cases (k ==ℤ j)) [
    | inr other ↦ find_cons (erase k m) j b (rw (find-erase k j m, other) f)
    | inl again ↦ absurd (ne (sym ((==ℤ_iff k i).0 same) ∙ (==ℤ_iff k j).0 again))
  ]
]

-- The choice of the best soul, which throws nothing.
best_soul-cases :
    (p : Player) (a : ℕ) (m : Map ℤ ℕ)
    → (best_soul p a m ≡ fault) ⊎ ((c : ℕ) × (best_soul p a m ≡ ok c))
unfolding best_soul
best_soul-cases p a [] = inr (a, refl)
best_soul-cases p a ((id, b) ∷ m) = elim (need-cases (soul_at p.souls.souls a)) [
  | inl e ↦ inl (step_fault _ _ e)
  | inr (soul, e) ↦ elim (need-cases (soul_at p.souls.souls b)) [
    | inl f ↦ inl (step _ _ _ _ e (step_fault _ _ f))
    | inr (other, f) ↦ elim (Bool-cases (ltb_ℤ soul.template.quality other.template.quality)) [
      | inl better ↦ elim (best_soul-cases p b m) [
        | inl g ↦ inl (step _ _ _ _ e (step _ _ _ _ f (rw better g)))
        | inr (c, g) ↦ inr (c, step _ _ _ _ e (step _ _ _ _ f (rw better g)))
      ]
      | inr not_better ↦ elim (best_soul-cases p a m) [
        | inl g ↦ inl (step _ _ _ _ e (step _ _ _ _ f (rw not_better g)))
        | inr (c, g) ↦ inr (c, step _ _ _ _ e (step _ _ _ _ f (rw not_better g)))
      ]
    ]
  ]
]

-- The map without the best soul has a soul at its head, at which the loop stops.
copy_stops :
    (env : Env) (p : Player) (m : Map ℤ ℕ) (i j : ℤ) (a b : ℕ)
    → find i m ≡ some a
    → find j m ≡ some b
    → i ≢ j
    → (swallow_copy env m p ≡ fault) ⊎ (swallow_copy env m p ≡ ok (true, p))
unfolding swallow_copy find
copy_stops env p [] i j a b f g ne = absurd (some-ne-none a (sym f))
copy_stops env p ((id, first) ∷ rest) i j a b f g ne = elim (best_soul-cases p first rest) [
  | inl e ↦ inl (step_fault _ _ e)
  | inr (c, e) ↦ elim (need-cases (soul_at p.souls.souls c)) [
    | inl e₁ ↦ inl (step _ _ _ _ e (step_fault _ _ e₁))
    | inr (soul, e₁) ↦
        elim (need-cases (get_level_by_exp env.soul_tables soul.template.quality soul.exp)) [
          | inl e₂ ↦ inl (step _ _ _ _ e (step _ _ _ _ e₁ (step_fault _ _ e₂)))
          | inr (lvl, e₂) ↦
              let (id', c', rest', x) = erase_one soul.id ((id, first) ∷ rest) i j a b f g ne in
              elim (swallow_each-stops env c c' id' rest' p) [
                | inl y ↦
                    inl
                      (step _ _ _ _ e (step _ _ _ _ e₁ (step _ _ _ _ e₂ (rw x (step_fault _ _ y)))))
                | inr y ↦ inr (
                    step _ _ _ _ e (step _ _ _ _ e₁ (step _ _ _ _ e₂ (rw x (step _ _ _ _ y refl)))))
              ]
        ]
  ]
]

-- With two souls or more among the hunted ones, `doSwallowAll` either uses an object or a place of a
-- vector that is not there, or returns with nothing changed and nothing sent: the first soul that it
-- swallows is read after it was freed.
pub do_swallow_all-nothing :
    (env : Env) (p : Player) (i j : ℤ) (a b : ℕ)
    → find i p.souls.hunted ≡ some a
    → find j p.souls.hunted ≡ some b
    → i ≢ j
    → (do_swallow_all env p ≡ fault) ⊎ (do_swallow_all env p ≡ ok (true, p))
unfolding do_swallow_all
do_swallow_all-nothing env p i j a b f g ne = copy_stops env p p.souls.hunted i j a b f g ne
