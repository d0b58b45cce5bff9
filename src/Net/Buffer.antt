-- ===== src/Net/Buffer.antt =====
-- buffer.h and buffer.cpp: the fixed byte buffer of a socket. Bytes are numbers; `m_buffer` is a
-- list of them. Both counters are `unsigned int`.
pub mod Stream
pub mod Copy
use windnet_game.Prelude.{
  ℕ, ◌+◌, ◌-◌, ◌%◌, ◌^◌, ◌≡◌, Option, none, some, List, [], ◌++◌, length, take, drop, leb, ltb,
  ◌==◌, if◌then◌else◌,
}

-- MAX_BUFFER_SIZE
abbrev pub max_buffer_size : ℕ
max_buffer_size = 8192

pub record Buffer : Type 0 where
  pub read : ℕ
  pub write : ℕ
  pub bytes : List ℕ

-- The constructor leaves `m_buffer` as it finds it.
unfoldable pub init : List ℕ → Buffer
init bytes = record { read = 0; write = 0; bytes = bytes }

unfoldable pub reset : Buffer → Buffer
reset b = record b { read = 0; write = 0 }

-- m_write - m_read
abbrev pub read_available : Buffer → ℕ
read_available b = (2 ^ 32 + b.write - b.read) % 2 ^ 32

-- memcpy(bytes + at, from, size): `none` is a write past the end of the array.
pub overwrite : List ℕ → ℕ → List ℕ → Option (List ℕ)
overwrite bytes at from =
    if ltb (length bytes) (at + length from)
    then none
    else some (take at bytes ++ (from ++ drop (at + length from) bytes))

-- copyIn has no test for room; with a null `buf` it only moves the counter.
pub copy_in : Buffer → Option (List ℕ) → ℕ → Option Buffer
copy_in b none size = some (record b { write = (b.write + size) % 2 ^ 32 })
copy_in b (some from) size = elim (overwrite b.bytes b.write from) [
  | none ↦ none
  | some bytes ↦ some (record b { write = (b.write + size) % 2 ^ 32; bytes = bytes })
]

-- The second half of `add`: the test for room, and the copy.
pub append_bytes : Buffer → List ℕ → Option (Option ℕ × Buffer)
append_bytes b from =
    if leb max_buffer_size ((b.write + length from) % 2 ^ 32)
    then some (none, b)
    else elim (overwrite b.bytes b.write from) [
      | none ↦ none
      | some bytes ↦
          let write = (b.write + length from) % 2 ^ 32 in
          some (some write, record b { write = write; bytes = bytes })
    ]

-- memmove(m_buffer, m_buffer + m_read, readAvailable()), and the counters after it.
pub move_down : Buffer → Option Buffer
move_down b = elim (overwrite b.bytes 0 (take (read_available b) (drop b.read b.bytes))) [
  | none ↦ none
  | some bytes ↦
      some (record { read = 0; write = (2 ^ 32 + b.write - b.read) % 2 ^ 32; bytes = bytes })
]

-- The outer `none` is a fault; the inner one the return value -1.
pub add : Buffer → List ℕ → Option (Option ℕ × Buffer)
add b from =
    if leb max_buffer_size ((b.write + length from) % 2 ^ 32)
    then if b.read == 0
      then some (none, b)
      else elim (move_down b) [ none ↦ none | some b' ↦ append_bytes b' from ]
    else append_bytes b from
