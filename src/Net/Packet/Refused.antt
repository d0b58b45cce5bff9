-- ===== src/Net/Packet/Refused.antt =====
-- Packets that `parseFromBuffer` waits for or faults on.
use windnet_game.Prelude.{
  ℕ, ◌+◌, ◌-◌, ◌^◌, ◌≤◌, ◌<◌, ◌≡◌, ◌≢◌, refl, ap, ◌∙◌, List, [], ◌∷◌, ◌++◌, window-append, length,
  length-append, take, drop, arith,
}
use windnet_game.Net.Buffer.{Buffer, read_available}
use windnet_game.Net.Buffer.Stream.{IsValid, unread, length-unread, read_available-length}
use windnet_game.Net.Packet.{
  verify_key, head_len, net_short, net_long, host_number, packet_bytes, wait, crash, read_body,
  parse_from_buffer,
}
use windnet_game.Net.Packet.Head.{
  length-packet, ahead, host_number-net_long, fields_ready, fields_wait,
}

-- A complete packet with the version 0 at the front of a valid buffer's unread bytes makes
-- `parseFromBuffer` divide by zero.
pub version_zero_crashes :
    (r : Buffer) (body rest : List ℕ)
    → IsValid r
    → unread r ≡ verify_key ++ (net_short 0 ++ (net_long (length body) ++ (body ++ rest)))
    → parse_from_buffer r ≡ (crash, r)
unfolding parse_from_buffer read_body
version_zero_crashes r body rest v e =
    rw (ahead r, e)
      (rw (host_number-net_long (length body) (omega (arith, enough, v.within))) (
        fields_ready r (read_available r) 0 (length body)
          (body ++ rest ++ drop (r.write - r.read) (drop r.read r.bytes)) (omega (arith, enough))
          (omega (arith, enough, v.within))))
  where
    enough : head_len + length body + length rest + r.read ≡ r.write
    enough = omega (arith, length-unread v, ap length e, length-append body rest)

some_more : (more : List ℕ) → more ≢ [] → 0 < length more
some_more [] h = absurd (h refl)
some_more (x ∷ more) h = omega arith

-- As long as a part of a packet, with a body of less than 2 ^ 32 bytes, is missing from a valid
-- buffer, `parseFromBuffer` waits and keeps the buffer as it is.
pub partial_waits :
    (r : Buffer) (body more : List ℕ)
    → IsValid r
    → length body < 2 ^ 32
    → unread r ++ more ≡ packet_bytes body
    → more ≢ []
    → parse_from_buffer r ≡ (wait, r)
unfolding parse_from_buffer packet_bytes
partial_waits r body more v small e missing = fields_wait r (read_available r) _ _ _ _ λ enough. (
  key (omega (arith, enough, read_available-length v)),
  rw (size (omega (arith, enough, read_available-length v)))
      (omega (arith, short, read_available-length v)),
)
  where
    tail : List ℕ
    tail = drop (r.write - r.read) (drop r.read r.bytes)

    -- The head is that of the packet, as far as it is there.
    window :
        (i n : ℕ)
        → i + n ≤ length (unread r)
        → take n (drop i (drop r.read r.bytes)) ≡ take n (drop i (packet_bytes body))
    window i n h =
        ap (λ t. take n (drop i t)) (ahead r)
        ∙ window-append i n (unread r) tail more h
        ∙ ap (λ t. take n (drop i t)) e

    key : head_len ≤ length (unread r) → take 4 (drop r.read r.bytes) ≡ verify_key
    key h = window 0 4 (omega arith)

    size :
        head_len ≤ length (unread r)
        → host_number 0 (take 4 (drop 6 (drop r.read r.bytes))) ≡ length body
    size h =
        ap (host_number 0) (window 6 4 (omega arith)) ∙ host_number-net_long (length body) small

    short : length (unread r) < head_len + length body
    short = omega (
      arith,
      ap length e,
      length-append (unread r) more,
      length-packet body,
      some_more more missing,
    )
