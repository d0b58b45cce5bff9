-- ===== src/Net/Buffer/Stream.antt =====
-- The buffer as the stream of the bytes that are written and not yet read.
use windnet_game.Prelude.{
  ℕ, zero, suc, ◌+◌, ◌-◌, ◌%◌, ◌≤◌, ◌<◌, ◌^◌, ◌≡◌, refl, ap, ◌∙◌, ◌⊎◌, inl, inr, true, false,
  Option, none, some, List, [], ◌∷◌, ◌++◌, length, length-append, length-take, length-drop, take,
  drop, take-append_left, leb, ltb, ◌==◌, arith, Bool-cases, ltb_false→le, ltb→lt, ==_iff,
  lt→leb_false, le→leb,
}
use windnet_game.Net.Buffer.{
  Buffer, max_buffer_size, read_available, overwrite, append_bytes, move_down, add,
}

pub record IsValid (b : Buffer) : Type 0 where
  pub ordered : b.read ≤ b.write
  pub within : b.write ≤ max_buffer_size
  pub size : length b.bytes ≡ max_buffer_size

-- The bytes that are written and not yet read, oldest first.
abbrev pub unread : Buffer → List ℕ
unread b = take (b.write - b.read) (drop b.read b.bytes)

pub read_available-length : {b : Buffer} → IsValid b → read_available b ≡ length (unread b)
read_available-length {b} v = omega (
  arith,
  v.ordered,
  v.within,
  v.size,
  length-take (b.write - b.read) (drop b.read b.bytes),
  length-drop b.read b.bytes,
)

take_prefix :
    (n w : ℕ) (bytes from rest : List ℕ)
    → n ≡ w + length from
    → w ≤ length bytes
    → take n (take w bytes ++ (from ++ rest)) ≡ take w bytes ++ from
take_prefix n zero bytes from rest e h = take-append_left from rest n (omega arith)
take_prefix n (suc w) [] from rest e h = elim h [ ]
take_prefix zero (suc w) (x ∷ bytes) from rest e h = absurd (omega arith)
take_prefix (suc n) (suc w) (x ∷ bytes) from rest e h =
    ap (◌∷◌ x) (take_prefix n w bytes from rest (omega arith) (omega arith))

-- The window from `r` of an array that was overwritten at `w`, behind the window's start.
pub window-overwrite :
    (r w n k : ℕ) (bytes from rest : List ℕ)
    → n + r ≡ w + length from
    → k + r ≡ w
    → w ≤ length bytes
    → take n (drop r (take w bytes ++ (from ++ rest))) ≡ take k (drop r bytes) ++ from
window-overwrite zero w n k bytes from rest e f h =
    rw (f') (take_prefix n w bytes from rest (omega arith) h)
  where
    f' : k ≡ w
    f' = omega arith
window-overwrite (suc r) zero n k bytes from rest e f h = absurd (omega arith)
window-overwrite (suc r) (suc w) n k [] from rest e f h = elim h [ ]
window-overwrite (suc r) (suc w) n k (x ∷ bytes) from rest e f h =
    window-overwrite r w n k bytes from rest (omega arith) (omega arith) (omega arith)

pub length-overwrite :
    (bytes : List ℕ) (at : ℕ) (from : List ℕ)
    → at + length from ≤ length bytes
    → length (take at bytes ++ (from ++ drop (at + length from) bytes)) ≡ length bytes
length-overwrite bytes at from h = omega (
  arith,
  length-append (take at bytes) (from ++ drop (at + length from) bytes),
  length-append from (drop (at + length from) bytes),
  length-take at bytes,
  length-drop (at + length from) bytes,
)

pub overwrite-some :
    (bytes : List ℕ) (at : ℕ) (from : List ℕ)
    → at + length from ≤ length bytes
    → overwrite bytes at from ≡ some (take at bytes ++ (from ++ drop (at + length from) bytes))
unfolding overwrite
overwrite-some bytes at from h = ground arith

-- What a call of `add` may do to a valid buffer: refuse and keep the stream, or append to it.
abbrev pub Adds : Buffer → List ℕ → Option (Option ℕ × Buffer) → Type 0
Adds b from r =
    (b' : Buffer) × IsValid b'
    × (((r ≡ some (none, b'))
          × (unread b' ≡ unread b)
          × (max_buffer_size ≤ length (unread b) + length from))
        ⊎ ((r ≡ some (some b'.write, b'))
            × (unread b' ≡ unread b ++ from)
            × (length (unread b) + length from < max_buffer_size)))

module _ {b : Buffer} (v : IsValid b) where
  pub length-unread : length (unread b) + b.read ≡ b.write
  length-unread = omega (
    arith,
    v.ordered,
    v.within,
    v.size,
    length-take (b.write - b.read) (drop b.read b.bytes),
    length-drop b.read b.bytes,
  )

  module _ (from : List ℕ) (small : length from < 2 ^ 31) where
    no_wrap : (b.write + length from) % 2 ^ 32 ≡ b.write + length from
    no_wrap = omega (arith, v.within)

    append_bytes_fits : b.write + length from < max_buffer_size → Adds b from (append_bytes b from)
    unfolding append_bytes
    append_bytes_fits fits = (
      b',
      record {
        ordered = omega (arith, no_wrap, v.ordered);
        within = omega (arith, no_wrap, fits);
        size = length-overwrite b.bytes b.write from (omega (arith, v.size)) ∙ v.size;
      },
      inr (
        rw (test, overwrite-some b.bytes b.write from (omega (arith, v.size))) refl,
        window-overwrite b.read b.write _ _ b.bytes from _ (omega (arith, no_wrap, v.ordered))
            (omega (arith, v.ordered)) (omega (arith, v.size, v.within)),
        omega (arith, length-unread),
      ),
    )
      where
        test : leb max_buffer_size ((b.write + length from) % 2 ^ 32) ≡ false
        test = rw no_wrap (lt→leb_false _ _ fits)

        b' : Buffer
        b' = record b {
          write = (b.write + length from) % 2 ^ 32;
          bytes = take b.write b.bytes ++ (from ++ drop (b.write + length from) b.bytes);
        }

    append_bytes_full :
        b.read ≡ 0 → max_buffer_size ≤ b.write + length from → Adds b from (append_bytes b from)
    unfolding append_bytes
    append_bytes_full start full = (b, v, inl (rw test refl, refl, omega (arith, length-unread)))
      where
        test : leb max_buffer_size ((b.write + length from) % 2 ^ 32) ≡ true
        test = rw no_wrap (le→leb _ _ full)

-- memmove brings the stream to the start of the array and keeps it.
move_down-unread :
    {b : Buffer}
    → IsValid b
    → (b' : Buffer) × (move_down b ≡ some b') × IsValid b' × (b'.read ≡ 0) × (unread b' ≡ unread b)
unfolding move_down
move_down-unread {b} v = (
  b',
  rw (move_down, counter, overwrite-some b.bytes 0 (unread b) room) (rw counter refl),
  record {
    ordered = omega arith;
    within = omega (arith, v.within);
    size = length-overwrite b.bytes 0 (unread b) room ∙ v.size;
  },
  refl,
  take-append_left (unread b) _ _ (omega (arith, length-unread v)),
)
  where
    counter : (2 ^ 32 + b.write - b.read) % 2 ^ 32 ≡ b.write - b.read
    counter = omega (arith, v.ordered, v.within)

    room : 0 + length (unread b) ≤ length b.bytes
    room = omega (arith, length-unread v, v.within, v.size)

    b' : Buffer
    b' = record {
      read = 0;
      write = b.write - b.read;
      bytes = take 0 b.bytes ++ (unread b ++ drop (0 + length (unread b)) b.bytes);
    }

Adds-same :
    (b c : Buffer) (from : List ℕ) (r : Option (Option ℕ × Buffer))
    → unread c ≡ unread b
    → Adds c from r
    → Adds b from r
Adds-same b c from r e (b', v, inl (p, q, t)) = (b', v, inl (p, q ∙ e, rw e at t))
Adds-same b c from r e (b', v, inr (p, q, t)) = (b', v, inr (p, rw e at q, rw e at t))

append_bytes-Adds :
    {b : Buffer} (from : List ℕ)
    → IsValid b
    → length from < 2 ^ 31
    → (b.read ≡ 0) ⊎ (b.write + length from < max_buffer_size)
    → Adds b from (append_bytes b from)
append_bytes-Adds {b} from v small (inr fits) = append_bytes_fits v from small fits
append_bytes-Adds {b} from v small (inl start) =
    elim (Bool-cases (ltb (b.write + length from) max_buffer_size)) [
      | inl fits ↦ append_bytes_fits v from small (ltb→lt _ _ fits)
      | inr full ↦ append_bytes_full v from small start (ltb_false→le _ _ full)
    ]

-- `add` of less than 2 ^ 31 bytes to a valid buffer never faults. It either returns -1, which it
-- does exactly when the unread bytes and the new ones would not stay below the size of the array,
-- and then keeps the unread bytes; or it appends the new bytes to them and returns the write
-- position. The buffer stays valid.
pub add-Adds :
    {b : Buffer} (from : List ℕ) → IsValid b → length from < 2 ^ 31 → Adds b from (add b from)
unfolding add
add-Adds {b} from v small =
    elim (Bool-cases (leb max_buffer_size ((b.write + length from) % 2 ^ 32))) [
      | inr room ↦ rw room (append_bytes-Adds from v small (inr (below room)))
      | inl full ↦ elim (Bool-cases (b.read == 0)) [
        | inl start ↦
            rw (full, start)
              (
                b,
                v,
                inl (
                  refl,
                  refl,
                  omega (arith, length-unread v, (==_iff b.read 0).0 start, above full),
                ),
              )
        | inr moved ↦
            let (c, e, w, start, same) = move_down-unread v in
            rw (full, moved, e)
              (Adds-same b c from _ same (append_bytes-Adds from w small (inl start)))
      ]
    ]
  where
    below :
        leb max_buffer_size ((b.write + length from) % 2 ^ 32) ≡ false
        → b.write + length from < max_buffer_size
    below h = ground (arith, no_wrap v from small)

    above :
        leb max_buffer_size ((b.write + length from) % 2 ^ 32) ≡ true
        → max_buffer_size ≤ b.write + length from
    above h = ground (arith, no_wrap v from small)
