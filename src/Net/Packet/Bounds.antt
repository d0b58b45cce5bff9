-- ===== src/Net/Packet/Bounds.antt =====
-- parseFromBuffer on any bytes.
use windnet_game.Prelude.{
  ℕ, ◌+◌, ◌-◌, ◌%◌, ◌^◌, ◌≤◌, inl, inr, not, ◌==◌, List, take, drop, ltb, ltb_false→le, arith,
  Bool-cases,
}
use windnet_game.Net.Buffer.{Buffer, max_buffer_size, read_available}
use windnet_game.Net.Buffer.Stream.{IsValid, length-unread, read_available-length}
use windnet_game.Net.Packet.{
  verify_key, head_len, host_number, same_bytes, read_body, parse_fields, parse_head,
  parse_from_buffer,
}

module _ {b : Buffer} (v : IsValid b) where
  read_body-IsValid :
      (sync : List ℕ) (version size : ℕ) (behind : List ℕ)
      → head_len + size ≤ read_available b
      → IsValid ((read_body b sync version size behind).1)
  unfolding read_body
  read_body-IsValid sync version size behind fits = elim (Bool-cases (version == 0)) [
    | inl zero_version ↦ rw (read_body, zero_version) v
    | inr some_version ↦
        rw (read_body, some_version) (record { ordered = moved; within = v.within; size = v.size })
  ]
    where
      moved : (b.read + (head_len + size)) % 2 ^ 32 ≤ b.write
      moved = omega (arith, fits, read_available-length v, length-unread v, v.within)

  parse_fields-IsValid :
      (sync : List ℕ) (version size : ℕ) (behind : List ℕ)
      → IsValid ((parse_fields b (read_available b) sync version size behind).1)
  unfolding parse_fields
  parse_fields-IsValid sync version size behind =
      elim (Bool-cases (ltb (read_available b) head_len)) [
        | inl few ↦ rw (parse_fields, few) v
        | inr head ↦ elim (Bool-cases (not (same_bytes sync verify_key))) [
          | inl other ↦ rw (parse_fields, head, other) v
          | inr same ↦ elim (Bool-cases (ltb (read_available b - head_len) size)) [
            | inl part ↦ rw (parse_fields, head, same, part) v
            | inr whole ↦ elim (Bool-cases (ltb max_buffer_size size)) [
              | inl large ↦ rw (parse_fields, head, same, whole, large) v
              | inr small ↦
                  rw (parse_fields, head, same, whole, small)
                    (read_body-IsValid sync version size behind
                      (omega (arith, ltb_false→le _ _ head, ltb_false→le _ _ whole)))
            ]
          ]
        ]
      ]

-- Whatever bytes a valid buffer holds, parsing leaves it valid.
pub parse_from_buffer-IsValid : (b : Buffer) → IsValid b → IsValid ((parse_from_buffer b).1)
unfolding parse_from_buffer parse_head
parse_from_buffer-IsValid b v =
    let ahead = drop b.read b.bytes in
    parse_fields-IsValid v (take 4 ahead) (host_number 0 (take 2 (drop 4 ahead)))
      (host_number 0 (take 4 (drop 6 ahead))) (drop head_len ahead)
