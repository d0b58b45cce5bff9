-- ===== src/Net/Packet.antt =====
-- protocol/packet.h and bson_buffer.cpp: the packet format of the server, a head of ten bytes and a
-- scrambled body. The BSON library that reads the body is not part of the model: `parse_from_buffer`
-- gives the body's bytes, which the program hands to BSON::parse.
pub mod Head
pub mod RoundTrip
pub mod Refused
pub mod Bounds
use windnet_game.Prelude.{
  ℕ, ◌+◌, ◌-◌, ◌*◌, ◌%◌, ◌/◌, ◌^◌, Option, none, some, List, [], ◌∷◌, ◌++◌, length, take, drop, leb,
  ltb, ◌==◌, Bool, true, false, not, ◌&&◌, if◌then◌else◌,
}
use windnet_game.Net.Buffer.{Buffer, max_buffer_size, reset, read_available, copy_in}
use windnet_game.Net.Cipher.{from_bytes, crypt}

-- "xxmp"
abbrev pub verify_key : List ℕ
verify_key = b'x' ∷ b'x' ∷ b'm' ∷ b'p' ∷ []

abbrev pub default_version : ℕ
default_version = 1256

-- Packet::sz(): an `int`, an `unsigned short` and an `unsigned int`, packed.
abbrev pub head_len : ℕ
head_len = 10

-- htons and htonl, as they lie in memory: the highest byte first.
abbrev pub net_short : ℕ → List ℕ
net_short n = n / 256 % 256 ∷ n % 256 ∷ []

abbrev pub net_long : ℕ → List ℕ
net_long n = n / 2 ^ 24 % 256 ∷ n / 2 ^ 16 % 256 ∷ n / 256 % 256 ∷ n % 256 ∷ []

-- ntohs and ntohl of bytes in memory.
abbrev pub host_number : ℕ → List ℕ → ℕ
host_number acc [] = acc
host_number acc (b ∷ bs) = host_number (acc * 256 + b) bs

-- head.sync % version * size, in `unsigned int`.
abbrev pub srand_of : List ℕ → ℕ → ℕ → ℕ
srand_of sync version size = from_bytes sync % version * size % 2 ^ 32

-- The bytes of the array `buffer` of `serializeToBuffer`.
unfoldable pub packet_bytes : List ℕ → List ℕ
packet_bytes body =
    verify_key
    ++ (net_short default_version
        ++ (net_long (length body)
            ++ crypt (srand_of verify_key default_version (length body)) body))

-- BsonBuffer::serializeToBuffer: the body stands at the start of the array.
pub serialize_to_buffer : Buffer → Option Buffer
serialize_to_buffer buf =
    let packet = packet_bytes (take (read_available buf) buf.bytes) in
    copy_in (reset buf) (some packet) (head_len + read_available buf)

abbrev pub same_bytes : List ℕ → List ℕ → Bool
same_bytes [] [] = true
same_bytes (a ∷ as') (b ∷ bs) = a == b && same_bytes as' bs
same_bytes _ _ = false

-- What `parseFromBuffer` does. It returns 0 for `wait` and for `parsed`, and -1 for `invalid`;
-- `crash` is the division by a version of 0.
pub data Outcome : Type 0 where
  wait : Outcome
  invalid : Outcome
  crash : Outcome
  parsed : List ℕ → Outcome

-- The part of `parseFromBuffer` behind the tests, on the head's fields and the bytes behind it.
pub read_body : Buffer → List ℕ → ℕ → ℕ → List ℕ → Outcome × Buffer
read_body b sync version size behind =
    let b' = record b { read = (b.read + (head_len + size)) % 2 ^ 32 } in
    if version == 0
    then (crash, b)
    else (parsed (crypt (srand_of sync version size) (take size behind)), b')

-- The tests of `parseFromBuffer`, on the number of bytes to read, the head's fields and the bytes
-- behind the head. The head is read only where it is there.
pub parse_fields : Buffer → ℕ → List ℕ → ℕ → ℕ → List ℕ → Outcome × Buffer
unfolding read_body
parse_fields b available sync version size behind =
    if ltb available head_len
    then (wait, b)
    else if not (same_bytes sync verify_key)
    then (invalid, b)
    else if ltb (available - head_len) size
    then (wait, b)
    else if ltb max_buffer_size size
    then (invalid, b)
    else read_body b sync version size behind

-- memcpy(&head, ...), ntohl(head.size) and ntohs(head.version).
pub parse_head : Buffer → ℕ → List ℕ → Outcome × Buffer
unfolding parse_fields
parse_head b available ahead =
    parse_fields b available (take 4 ahead) (host_number 0 (take 2 (drop 4 ahead)))
      (host_number 0 (take 4 (drop 6 ahead))) (drop head_len ahead)

-- BsonBuffer::parseFromBuffer.
pub parse_from_buffer : Buffer → Outcome × Buffer
unfolding parse_head
parse_from_buffer b = parse_head b (read_available b) (drop b.read b.bytes)
