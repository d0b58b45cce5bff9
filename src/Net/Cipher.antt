-- ===== src/Net/Cipher.antt =====
-- The loop of bson_buffer.cpp that scrambles a packet's body: `while (count < size) { ... }`, the
-- same in BsonBuffer::serializeToBuffer and BsonBuffer::parseFromBuffer. The machine is little
-- endian; an `int` is its bit pattern.
use windnet_game.Prelude.{
  ℕ, zero, suc, ◌+◌, ◌*◌, ◌/◌, ◌%◌, ◌^◌, ◌<◌, ◌≡◌, refl, sym, ap, ap₂, ◌∙◌, bit_xor, List, [], ◌∷◌,
  ◌++◌, length, arith,
}
use windnet_game.Prelude.Xor.{xor_twice, xor-mod}
use native.Mathlib.Nat.{mod-mod}

-- memcpy of some bytes into an `int` that was 0.
abbrev pub from_bytes : List ℕ → ℕ
from_bytes [] = 0
from_bytes (b ∷ bs) = b + 256 * from_bytes bs

-- The first `n` bytes of an `int` in memory.
abbrev pub to_bytes : ℕ → ℕ → List ℕ
to_bytes zero w = []
to_bytes (suc n) w = w % 256 ∷ to_bytes n (w / 256)

-- val ^= srand, for a block of at most four bytes.
abbrev pub crypt_block : ℕ → List ℕ → List ℕ
crypt_block srand bs = to_bytes (length bs) (bit_xor (from_bytes bs) srand)

-- Blocks of min(4, size - count) bytes.
pub crypt : ℕ → List ℕ → List ℕ
crypt srand (a ∷ b ∷ c ∷ d ∷ bs) = crypt_block srand (a ∷ b ∷ c ∷ d ∷ []) ++ crypt srand bs
crypt srand (a ∷ b ∷ c ∷ []) = crypt_block srand (a ∷ b ∷ c ∷ [])
crypt srand (a ∷ b ∷ []) = crypt_block srand (a ∷ b ∷ [])
crypt srand (a ∷ []) = crypt_block srand (a ∷ [])
crypt srand [] = []

abbrev pub IsBytes : List ℕ → Type 0
IsBytes [] = Unit {0}
IsBytes (b ∷ bs) = (b < 256) × IsBytes bs

-- Scrambling twice a value that is cut to `w` bits between the two.
undo : (w v k : ℕ) → bit_xor (bit_xor v k % 2 ^ w) k % 2 ^ w ≡ v % 2 ^ w
undo w v k =
    xor-mod w (bit_xor v k % 2 ^ w) k
    ∙ ap (λ t. bit_xor t (k % 2 ^ w)) (mod-mod (bit_xor v k) (2 ^ w))
    ∙ sym (xor-mod w (bit_xor v k) k)
    ∙ ap (λ t. t % 2 ^ w) (xor_twice v k)

-- Two numbers with the same low bits have the same first bytes.
module _ (v z : ℕ) where
  same_bytes_1 : v % 2 ^ 8 ≡ z % 2 ^ 8 → to_bytes 1 v ≡ to_bytes 1 z
  same_bytes_1 e = ap₂ ◌∷◌ (omega arith) refl

  same_bytes_2 : v % 2 ^ 16 ≡ z % 2 ^ 16 → to_bytes 2 v ≡ to_bytes 2 z
  same_bytes_2 e = ap₂ ◌∷◌ (omega arith) (ap₂ ◌∷◌ (omega arith) refl)

  same_bytes_3 : v % 2 ^ 24 ≡ z % 2 ^ 24 → to_bytes 3 v ≡ to_bytes 3 z
  same_bytes_3 e = ap₂ ◌∷◌ (omega arith) (ap₂ ◌∷◌ (omega arith) (ap₂ ◌∷◌ (omega arith) refl))

  same_bytes_4 : v % 2 ^ 32 ≡ z % 2 ^ 32 → to_bytes 4 v ≡ to_bytes 4 z
  same_bytes_4 e =
      ap₂ ◌∷◌ (omega arith)
        (ap₂ ◌∷◌ (omega arith) (ap₂ ◌∷◌ (omega arith) (ap₂ ◌∷◌ (omega arith) refl)))

-- Each block comes back when it is scrambled again.
module _ (srand : ℕ) where
  crypt_block_1 : (a : ℕ) → a < 256 → crypt_block srand (crypt_block srand (a ∷ [])) ≡ a ∷ []
  crypt_block_1 a ha =
      ap (λ t. to_bytes 1 (bit_xor t srand)) low
      ∙ same_bytes_1 _ v (undo 8 v srand)
      ∙ ap₂ ◌∷◌ (omega arith) refl
    where
      v : ℕ
      v = from_bytes (a ∷ [])

      low : from_bytes (to_bytes 1 (bit_xor v srand)) ≡ bit_xor v srand % 2 ^ 8
      low = omega arith

  crypt_block_2 :
      (a b : ℕ)
      → a < 256
      → b < 256
      → crypt_block srand (crypt_block srand (a ∷ b ∷ [])) ≡ a ∷ b ∷ []
  crypt_block_2 a b ha hb =
      ap (λ t. to_bytes 2 (bit_xor t srand)) low
      ∙ same_bytes_2 _ v (undo 16 v srand)
      ∙ ap₂ ◌∷◌ (omega arith) (ap₂ ◌∷◌ (omega arith) refl)
    where
      v : ℕ
      v = from_bytes (a ∷ b ∷ [])

      low : from_bytes (to_bytes 2 (bit_xor v srand)) ≡ bit_xor v srand % 2 ^ 16
      low = omega arith

  crypt_block_3 :
      (a b c : ℕ)
      → a < 256
      → b < 256
      → c < 256
      → crypt_block srand (crypt_block srand (a ∷ b ∷ c ∷ [])) ≡ a ∷ b ∷ c ∷ []
  crypt_block_3 a b c ha hb hc =
      ap (λ t. to_bytes 3 (bit_xor t srand)) low
      ∙ same_bytes_3 _ v (undo 24 v srand)
      ∙ ap₂ ◌∷◌ (omega arith) (ap₂ ◌∷◌ (omega arith) (ap₂ ◌∷◌ (omega arith) refl))
    where
      v : ℕ
      v = from_bytes (a ∷ b ∷ c ∷ [])

      low : from_bytes (to_bytes 3 (bit_xor v srand)) ≡ bit_xor v srand % 2 ^ 24
      low = omega arith

  crypt_block_4 :
      (a b c d : ℕ)
      → a < 256
      → b < 256
      → c < 256
      → d < 256
      → crypt_block srand (crypt_block srand (a ∷ b ∷ c ∷ d ∷ [])) ≡ a ∷ b ∷ c ∷ d ∷ []
  crypt_block_4 a b c d ha hb hc hd =
      ap (λ t. to_bytes 4 (bit_xor t srand)) low
      ∙ same_bytes_4 _ v (undo 32 v srand)
      ∙ ap₂ ◌∷◌ (omega arith)
          (ap₂ ◌∷◌ (omega arith) (ap₂ ◌∷◌ (omega arith) (ap₂ ◌∷◌ (omega arith) refl)))
    where
      v : ℕ
      v = from_bytes (a ∷ b ∷ c ∷ d ∷ [])

      low : from_bytes (to_bytes 4 (bit_xor v srand)) ≡ bit_xor v srand % 2 ^ 32
      low = omega arith

-- Scrambling undoes itself on any list of bytes: what the receiver computes from the scrambled
-- bytes is what was sent.
pub crypt_twice : (srand : ℕ) (bs : List ℕ) → IsBytes bs → crypt srand (crypt srand bs) ≡ bs
unfolding crypt
crypt_twice srand [] h = refl
crypt_twice srand (a ∷ []) h = crypt_block_1 srand a h.0
crypt_twice srand (a ∷ b ∷ []) h = crypt_block_2 srand a b h.0 h.1.0
crypt_twice srand (a ∷ b ∷ c ∷ []) h = crypt_block_3 srand a b c h.0 h.1.0 h.1.1.0
crypt_twice srand (a ∷ b ∷ c ∷ d ∷ bs) h =
    ap₂ ◌++◌ (crypt_block_4 srand a b c d h.0 h.1.0 h.1.1.0 h.1.1.1.0)
      (crypt_twice srand bs h.1.1.1.1)

pub length-crypt : (srand : ℕ) (bs : List ℕ) → length (crypt srand bs) ≡ length bs
unfolding crypt
length-crypt srand [] = refl
length-crypt srand (a ∷ []) = refl
length-crypt srand (a ∷ b ∷ []) = refl
length-crypt srand (a ∷ b ∷ c ∷ []) = refl
length-crypt srand (a ∷ b ∷ c ∷ d ∷ bs) = ap (λ n. suc (suc (suc (suc n)))) (length-crypt srand bs)
