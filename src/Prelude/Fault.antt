-- ===== src/Prelude/Fault.antt =====
-- Code that may fault: `none` is the use of a null pointer or of a place outside an array, after
-- which the program's behaviour is undefined.
use mathlib.Core.Option.{Option, none, some}

infixl 5 ◌>>=◌
abbrev pub ◌>>=◌ {ℓ κ} : {A : Type ℓ} {B : Type κ} → Option A → (A → Option B) → Option B
none >>= f = none
some a >>= f = f a
