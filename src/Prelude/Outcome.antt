-- ===== src/Prelude/Outcome.antt =====
-- Code that may fault, and may throw an exception that a caller catches. A handler reads what can
-- throw before it changes anything, so that a thrown exception carries no state; the one exception that
-- comes later, in doChooseRole, is given as what its catch makes of it.
use mathlib.Core.Path.{◌≡◌, refl, ap, sym, ◌∙◌}
use mathlib.Core.Logic.{◌⊎◌, inl, inr}
use mathlib.Core.Option.{Option, none, some}

pub data Outcome {ℓ} (A : Type ℓ) : Type ℓ where
  fault : Outcome A
  thrown : Outcome A
  ok : A → Outcome A

infixl 5 ◌>>=◌
abbrev pub ◌>>=◌ {ℓ κ} : {A : Type ℓ} {B : Type κ} → Outcome A → (A → Outcome B) → Outcome B
fault >>= f = fault
thrown >>= f = thrown
ok a >>= f = f a

-- A call that may fault and does not throw.
abbrev pub need {ℓ} : {A : Type ℓ} → Option A → Outcome A
need none = fault
need (some a) = ok a

pub Outcome-cases {ℓ} :
    {A : Type ℓ} (o : Outcome A) → (o ≡ fault) ⊎ ((o ≡ thrown) ⊎ ((a : A) × (o ≡ ok a)))
Outcome-cases fault = inl refl
Outcome-cases thrown = inr (inl refl)
Outcome-cases (ok a) = inr (inr (a, refl))

-- What a chain that succeeds has gone through.
pub bind-ok {ℓ κ} :
    {A : Type ℓ} {B : Type κ} (o : Outcome A) (f : A → Outcome B) (b : B)
    → (o >>= f) ≡ ok b
    → (a : A) × (o ≡ ok a) × (f a ≡ ok b)
bind-ok fault f b e = absurd cc
bind-ok thrown f b e = absurd cc
bind-ok (ok a) f b e = (a, refl, e)

abbrev value_or {ℓ} : {A : Type ℓ} → A → Outcome A → A
value_or d (ok a) = a
value_or d _ = d

pub ok-injective {ℓ} : {A : Type ℓ} (a b : A) → ok a ≡ ok b → a ≡ b
ok-injective a b e = ap (value_or a) e

pub need-ok {ℓ} : {A : Type ℓ} (o : Option A) (a : A) → need o ≡ ok a → o ≡ some a
need-ok none a e = absurd cc
need-ok (some b) a e = ap some (ok-injective b a e)

-- A chain whose first step is known.
pub bind_at {ℓ κ} :
    {A : Type ℓ} {B : Type κ} (o : Outcome A) (f : A → Outcome B) (a : A) (r : Outcome B)
    → o ≡ ok a
    → (o >>= f) ≡ r
    → f a ≡ r
bind_at fault f a r h e = absurd cc
bind_at thrown f a r h e = absurd cc
bind_at (ok b) f a r h e = sym (ap f (ok-injective b a h)) ∙ e

pub step {ℓ κ} :
    {A : Type ℓ} {B : Type κ} (o : Outcome A) (f : A → Outcome B) (a : A) (r : Outcome B)
    → o ≡ ok a
    → f a ≡ r
    → (o >>= f) ≡ r
step fault f a r h e = absurd cc
step thrown f a r h e = absurd cc
step (ok b) f a r h e = ap f (ok-injective b a h) ∙ e

pub step_fault {ℓ κ} :
    {A : Type ℓ} {B : Type κ} (o : Outcome A) (f : A → Outcome B) → o ≡ fault → (o >>= f) ≡ fault
step_fault fault f h = refl
step_fault thrown f h = absurd cc
step_fault (ok b) f h = absurd cc

pub need-cases {ℓ} : {A : Type ℓ} (o : Option A) → (need o ≡ fault) ⊎ ((a : A) × (need o ≡ ok a))
need-cases none = inl refl
need-cases (some a) = inr (a, refl)
