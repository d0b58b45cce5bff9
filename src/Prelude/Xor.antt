-- ===== src/Prelude/Xor.antt =====
-- Laws of the native exclusive or at every width, from its recursion on binary digits.
use Prim.Native.Nat.{
  ℕ, zero, suc, ◌+◌, ◌-◌, ◌*◌, ◌/◌, ◌%◌, ◌^◌, ◌≤◌, ◌<◌, bit_xor, digits, bit_xor-bitwise, differ,
}
use mathlib.Core.Path.{◌≡◌, refl, sym, ap, ap₂, ◌∙◌}
use native.Mathlib.Nat.{pow-suc, mod-one, one-le-pow, div-add-mod, mod-lt}
use native.Mathlib.Omega.{arith}

-- The fuel of the recursion may be any number from the first argument on.
xor_digits_fuel :
    (n m a b : ℕ) → a ≤ n → a ≤ m → digits (λ y. y) differ n a b ≡ digits (λ y. y) differ m a b
xor_digits_fuel zero zero a b p q = refl
xor_digits_fuel zero (suc m) zero b p q = refl
xor_digits_fuel zero (suc m) (suc a) b p q = elim p [ ]
xor_digits_fuel (suc n) zero zero b p q = refl
xor_digits_fuel (suc n) zero (suc a) b p q = elim q [ ]
xor_digits_fuel (suc n) (suc m) zero b p q = refl
xor_digits_fuel (suc n) (suc m) (suc a) b p q =
    omega (arith, xor_digits_fuel n m (suc a / 2) (b / 2) (omega arith) (omega arith))

zero-xor : (b : ℕ) → bit_xor 0 b ≡ b
zero-xor b = bit_xor-bitwise 0 b

differ-sub : (x y : ℕ) → differ x y ≡ (x - y) + (y - x)
differ-sub zero y = omega arith
differ-sub (suc x) zero = omega arith
differ-sub (suc x) (suc y) = omega (arith, differ-sub x y)

pub xor_step : (a b : ℕ) → bit_xor a b ≡ bit_xor (a / 2) (b / 2) * 2 + differ (a % 2) (b % 2)
xor_step zero b = omega (arith, zero-xor b, zero-xor (b / 2))
xor_step (suc a) b = omega (
  arith,
  bit_xor-bitwise (suc a) b,
  bit_xor-bitwise (suc a / 2) (b / 2),
  xor_digits_fuel a (suc a / 2) (suc a / 2) (b / 2) (omega arith) (omega arith),
)

xor_parts :
    (a b : ℕ)
    → (bit_xor a b / 2 ≡ bit_xor (a / 2) (b / 2))
      × (bit_xor a b % 2 ≡ (a % 2 - b % 2) + (b % 2 - a % 2))
xor_parts a b = omega (arith, xor_step a b, differ-sub (a % 2) (b % 2))

xor_twice_fuel : (n a b : ℕ) → a ≤ n → b ≤ n → bit_xor (bit_xor a b) b ≡ a
xor_twice_fuel zero zero zero p q = refl
xor_twice_fuel zero zero (suc b) p q = elim q [ ]
xor_twice_fuel zero (suc a) b p q = elim p [ ]
xor_twice_fuel (suc n) a b p q = omega (
  arith,
  xor_parts (bit_xor a b) b,
  xor_parts a b,
  ap (λ t. bit_xor t (b / 2)) (xor_parts a b).0,
  xor_twice_fuel n (a / 2) (b / 2) (omega arith) (omega arith),
)

-- The exclusive or with a number undoes itself.
pub xor_twice : (a b : ℕ) → bit_xor (bit_xor a b) b ≡ a
xor_twice a b = xor_twice_fuel (a + b) a b (omega arith) (omega arith)

-- A remainder by twice a number, from the remainder of the half.
mod_double : (x m : ℕ) → 0 < m → x % (m * 2) ≡ x / 2 % m * 2 + x % 2
mod_double x m h =
    grind (arith, div-add-mod (x / 2) m, div-add-mod x (m * 2), mod-lt (x / 2) {m = m})

half_of : (t r : ℕ) → r < 2 → (t * 2 + r) / 2 ≡ t
half_of t r h = omega arith

-- The low digits of an exclusive or are those of the low digits.
pub xor-mod : (k a b : ℕ) → bit_xor a b % 2 ^ k ≡ bit_xor (a % 2 ^ k) (b % 2 ^ k)
xor-mod zero a b = mod-one (bit_xor a b) ∙ sym (ap₂ bit_xor (mod-one a) (mod-one b))
xor-mod (suc k) a b =
    rw
      (pow-suc 2 k, mod_double (bit_xor a b) m some_m, mod_double a m some_m, mod_double b m some_m)
      (omega (
        arith,
        ap (λ t. t % m) (xor_parts a b).0,
        xor_parts a b,
        xor-mod k (a / 2) (b / 2),
        xor_parts (a / 2 % m * 2 + a % 2) (b / 2 % m * 2 + b % 2),
        ap₂ bit_xor (half_of (a / 2 % m) (a % 2) (omega arith))
            (half_of (b / 2 % m) (b % 2) (omega arith)),
      ))
  where
    m : ℕ
    m = 2 ^ k

    some_m : 0 < m
    some_m = one-le-pow k 2 (omega arith)
