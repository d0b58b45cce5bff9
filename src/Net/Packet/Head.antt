-- ===== src/Net/Packet/Head.antt =====
-- The head of a packet and the tests of `parseFromBuffer`.
use windnet_game.Prelude.{
  ℕ, zero, suc, ◌+◌, ◌-◌, ◌^◌, ◌≤◌, ◌<◌, ◌≡◌, refl, ap, List, [], ◌∷◌, ◌++◌, Bool-cases, inl, inr,
  ltb_false→le, length, take, drop, ltb, false, arith, lt→ltb, le→ltb_false,
}
use windnet_game.Net.Buffer.{Buffer, max_buffer_size}
use windnet_game.Net.Buffer.Stream.{unread}
use windnet_game.Net.Cipher.{crypt, length-crypt}
use windnet_game.Net.Packet.{
  verify_key, default_version, head_len, net_long, host_number, srand_of, packet_bytes, wait,
  read_body, parse_fields,
}

pub length-packet : (body : List ℕ) → length (packet_bytes body) ≡ head_len + length body
unfolding packet_bytes
length-packet body =
    omega (arith, length-crypt (srand_of verify_key default_version (length body)) body)

take-append-drop : (n : ℕ) (xs : List ℕ) → xs ≡ take n xs ++ drop n xs
take-append-drop zero xs = refl
take-append-drop (suc n) [] = refl
take-append-drop (suc n) (x ∷ xs) = ap (◌∷◌ x) (take-append-drop n xs)

-- The array from the read position on is the unread bytes and what lies behind them.
pub ahead :
    (b : Buffer) → drop b.read b.bytes ≡ unread b ++ drop (b.write - b.read) (drop b.read b.bytes)
ahead b = take-append-drop (b.write - b.read) (drop b.read b.bytes)

pub host_number-net_long : (n : ℕ) → n < 2 ^ 32 → host_number 0 (net_long n) ≡ n
host_number-net_long n h = omega arith

-- The ten bytes of a packet's head, and what is behind it.
pub packet_head :
    (body tail : List ℕ)
    → packet_bytes body ++ tail
      ≡ b'x'
        ∷ b'x'
        ∷ b'm'
        ∷ b'p'
        ∷ 4
        ∷ 232
        ∷ (net_long (length body)
            ++ (crypt (srand_of verify_key default_version (length body)) body ++ tail))
unfolding packet_bytes
packet_head body tail = refl

-- The tests of the parser, where they let a packet through and where they wait for more.
pub fields_ready :
    (b : Buffer) (available version size : ℕ) (behind : List ℕ)
    → head_len + size ≤ available
    → size ≤ max_buffer_size
    → parse_fields b available verify_key version size behind
      ≡ read_body b verify_key version size behind
unfolding parse_fields
fields_ready b available version size behind enough small = rw (
  le→ltb_false available head_len (omega arith),
  le→ltb_false (available - head_len) size (omega arith),
  le→ltb_false max_buffer_size size (omega arith),
)

pub fields_wait :
    (b : Buffer) (available version size : ℕ) (sync behind : List ℕ)
    → (head_len ≤ available → (sync ≡ verify_key) × (available < head_len + size))
    → parse_fields b available sync version size behind ≡ (wait, b)
unfolding parse_fields
fields_wait b available version size sync behind h = elim (Bool-cases (ltb available head_len)) [
  | inl few ↦ rw few
  | inr enough ↦
      let (key, short) = h (ltb_false→le _ _ enough) in
      rw (enough, key, lt→ltb (available - head_len) size (least enough short))
]
  where
    least :
        ltb available head_len ≡ false → available < head_len + size → available - head_len < size
    least e short = omega (arith, ltb_false→le available head_len e)
