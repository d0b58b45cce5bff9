-- ===== src/Net/Packet/RoundTrip.antt =====
-- Packets that are sent are received: `serializeToBuffer` against `parseFromBuffer`.
use windnet_game.Prelude.{
  ℕ, ◌+◌, ◌-◌, ◌≤◌, ◌<◌, ◌≡◌, sym, ap, ap₂, ◌∙◌, none, some, List, ◌++◌, append_assoc, length,
  length-append, take, drop, take-append_left, drop-append_left, arith,
}
use windnet_game.Net.Buffer.{Buffer, max_buffer_size, reset, read_available, copy_in}
use windnet_game.Net.Buffer.Stream.{IsValid, unread, length-unread, read_available-length}
use windnet_game.Net.Buffer.Copy.{copy_in-unread, copy_in-overruns, skip, skip-unread}
use windnet_game.Net.Cipher.{crypt, crypt_twice, length-crypt, IsBytes}
use windnet_game.Net.Packet.{
  verify_key, default_version, head_len, srand_of, packet_bytes, serialize_to_buffer, parsed,
  read_body, parse_fields, parse_from_buffer,
}
use windnet_game.Net.Packet.Head.{
  length-packet, ahead, host_number-net_long, packet_head, fields_ready,
}

module _ {b : Buffer} (v : IsValid b) (body rest : List ℕ)
    (e : unread b ≡ packet_bytes body ++ rest) where
  received_available : read_available b ≡ head_len + length body + length rest
  received_available = omega (
    arith,
    read_available-length v,
    ap length e,
    length-append (packet_bytes body) rest,
    length-packet body,
  )

  received_small : length body + head_len ≤ max_buffer_size
  received_small =
      omega (arith, received_available, length-unread v, read_available-length v, v.within)

  received : Buffer
  received = skip b (head_len + length body)

  body_fields :
      (size : ℕ) (tail : List ℕ)
      → IsBytes body
      → size ≡ length body
      → parse_fields b
          (head_len + length body + length rest)
          verify_key
          default_version
          size
          (crypt (srand_of verify_key default_version (length body)) body ++ tail)
        ≡ (parsed body, received)
  unfolding read_body received
  body_fields size tail bytes same = rw same (
      fields_ready b _ default_version (length body) _ (omega arith) (omega (arith, received_small))
      ∙ rw (
        take-append_left (crypt (srand_of verify_key default_version (length body)) body) tail
            (length body) (sym (length-crypt _ body)),
        crypt_twice (srand_of verify_key default_version (length body)) body bytes,
      ))

  parse_received : IsBytes body → parse_from_buffer b ≡ (parsed body, received)
  unfolding parse_from_buffer
  parse_received bytes =
      rw (received_available, ahead b, e, append_assoc (packet_bytes body) rest _)
        (rw (packet_head body _) (
          body_fields _ _ bytes
            (host_number-net_long (length body) (omega (arith, received_small)))))

  received_rest : IsValid received × (unread received ≡ rest)
  unfolding received
  received_rest =
      let (w, same) =
        skip-unread (head_len + length body) v
          (omega (arith, received_available, read_available-length v)) in
      (w, same ∙ rw e (drop-append_left (packet_bytes body) rest _ (sym (length-packet body))))

-- A packet in front of the unread bytes is parsed.
pub parse_packet :
    (r : Buffer) (body rest : List ℕ)
    → IsValid r
    → IsBytes body
    → unread r ≡ packet_bytes body ++ rest
    → (r' : Buffer) × (parse_from_buffer r ≡ (parsed body, r')) × IsValid r' × (unread r' ≡ rest)
parse_packet r body rest w bytes e =
    let (w', same) = received_rest w body rest e in
    (received w body rest e, parse_received w body rest e bytes, w', same)

module _ {s : Buffer} (v : IsValid s) (start : s.read ≡ 0) where
  sent_size : read_available s ≡ length (unread s)
  sent_size = read_available-length v

  sent_body : take (read_available s) s.bytes ≡ unread s
  sent_body = ap₂ take amount (sym (ap (λ t. drop t s.bytes) start))
    where
      amount : read_available s ≡ s.write - s.read
      amount = omega (arith, v.ordered, v.within)

  serialize_eq :
      serialize_to_buffer s
      ≡ copy_in (reset s) (some (packet_bytes (unread s))) (length (packet_bytes (unread s)))
  unfolding serialize_to_buffer
  serialize_eq =
      ap₂ (λ p n. copy_in (reset s) (some (packet_bytes p)) n) sent_body
        (omega (arith, sent_size, length-packet (unread s)))

  reset-IsValid : IsValid (reset s)
  unfolding reset
  reset-IsValid = record { ordered = omega arith; within = omega arith; size = v.size }

pub serialize_sends :
    (s : Buffer)
    → IsValid s
    → s.read ≡ 0
    → head_len + length (unread s) ≤ max_buffer_size
    → (s' : Buffer) × (serialize_to_buffer s ≡ some s')
      × IsValid s'
      × (unread s' ≡ packet_bytes (unread s))
unfolding reset
serialize_sends s v start fits =
    let (s', done, v', sent) =
      copy_in-unread (packet_bytes (unread s)) (reset-IsValid v start)
        (omega (arith, length-packet (unread s), fits)) in
    (s', serialize_eq v start ∙ done, v', sent)

-- What is sent arrives: a valid buffer that holds at most 8182 unread bytes at its start is
-- serialized without fault, and a valid receiver whose unread bytes begin with the packet parses
-- exactly the bytes that were sent, stays valid, and goes on with the bytes behind the packet.
pub round_trip :
    (s r : Buffer) (rest : List ℕ)
    → IsValid s
    → s.read ≡ 0
    → IsBytes (unread s)
    → head_len + length (unread s) ≤ max_buffer_size
    → IsValid r
    → unread r ≡ packet_bytes (unread s) ++ rest
    → (s' r' : Buffer) × (serialize_to_buffer s ≡ some s')
      × (unread s' ≡ packet_bytes (unread s))
      × (parse_from_buffer r ≡ (parsed (unread s), r'))
      × IsValid r'
      × (unread r' ≡ rest)
unfolding reset
round_trip s r rest v start bytes fits w e =
    let (s', done, v', sent) = serialize_sends s v start fits in
    let (r', got, w', same) = parse_packet r (unread s) rest w bytes e in
    (s', r', done, sent, got, w', same)

-- The unread bytes of a valid buffer that begin at its start and leave no room for the head make
-- `serializeToBuffer` write past the array.
pub serialize_overruns :
    (s : Buffer)
    → IsValid s
    → s.read ≡ 0
    → max_buffer_size < head_len + length (unread s)
    → serialize_to_buffer s ≡ none
unfolding reset
serialize_overruns s v start over =
    serialize_eq v start
    ∙ copy_in-overruns (packet_bytes (unread s)) (reset-IsValid v start)
        (omega (arith, length-packet (unread s)))
