-- ===== src/Net/Holding.antt =====
-- Buffers that hold given bytes, for the tests.
use windnet_game.Prelude.{
  ℕ, ◌+◌, ◌-◌, ◌≡◌, List, ◌++◌, length, length-append, length-replicate, replicate,
  take-append_left, arith,
}
use windnet_game.Net.Buffer.{Buffer}
use windnet_game.Net.Buffer.Stream.{IsValid, unread}

-- A buffer that holds some bytes at its start.
abbrev pub holding : List ℕ → ℕ → Buffer
holding bytes more = record { read = 0; write = length bytes; bytes = bytes ++ replicate more 0 }

pub holding-IsValid :
    (bytes : List ℕ) (more : ℕ) → length bytes + more ≡ 8192 → IsValid (holding bytes more)
holding-IsValid bytes more e = record {
  ordered = omega arith;
  within = omega (arith, e);
  size =
      omega (arith, e, length-append bytes (replicate more 0), length-replicate {0} {A = ℕ} more 0);
}

pub unread-holding : (bytes : List ℕ) (more : ℕ) → unread (holding bytes more) ≡ bytes
unread-holding bytes more =
    take-append_left bytes (replicate more 0) (length bytes - 0) (omega arith)
