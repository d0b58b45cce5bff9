-- ===== src/Server/Reading.antt =====
-- Socket::read on the stream of bytes that arrive.
use windnet_game.Prelude.{
  ℕ, ◌+◌, ◌^◌, ◌≤◌, ◌<◌, ◌≡◌, inl, inr, refl, sym, ap, ◌∙◌, true, false, ℤ, pos, negsuc, Option,
  none, some, List, [], ◌++◌, append_assoc, append-nil, length, length-append, ltb, ltb_false→le,
  ◌==◌, arith, Bool-cases,
}
use windnet_game.Net.Buffer.{Buffer, max_buffer_size, add}
use windnet_game.Net.Buffer.Stream.{IsValid, unread, add-Adds}
use windnet_game.Server.{Reads, block, interrupted, again, failed, to_read, read}

-- The bytes of the blocks up to the first one that does not fill the array.
unfoldable pub arrived : Reads → List ℕ
arrived (block bytes more) = elim (ltb (length bytes) to_read) [
  | true ↦ bytes
  | false ↦ bytes ++ arrived more
]
arrived _ = []

-- As ::read gives them: no block is larger than the array, and the end of the connection and an
-- error do not come before a block that does not fill it.
abbrev pub IsFine : Reads → Type 0
IsFine (block bytes more) =
    (0 < length bytes) × (length bytes ≤ to_read) × (to_read ≤ length bytes → IsFine more)
IsFine failed = ⊥
IsFine _ = Unit {0}

-- The read returns no more than it was asked for.
abbrev pub IsSmall : Reads → Type 0
IsSmall (block bytes more) = (length bytes ≤ to_read) × (to_read ≤ length bytes → IsSmall more)
IsSmall _ = Unit {0}

pub IsFine-IsSmall : (got : Reads) → IsFine got → IsSmall got
IsFine-IsSmall (block bytes more) (any, small, on) = (small, λ full. IsFine-IsSmall more (on full))
IsFine-IsSmall interrupted fine = tt
IsFine-IsSmall again fine = tt
IsFine-IsSmall failed fine = absurd fine

some_bytes : (n : ℕ) → 0 < n → (n == 0) ≡ false
some_bytes n h = ground arith

-- Room for the bytes leaves one of the two results of `add`.
Appends : Buffer → List ℕ → Type 0
Appends b bytes =
    (b' : Buffer) × (add b bytes ≡ some (some b'.write, b'))
    × IsValid b'
    × (unread b' ≡ unread b ++ bytes)

add-Appends :
    {b : Buffer} (bytes : List ℕ)
    → IsValid b
    → length (unread b) + length bytes < max_buffer_size
    → Appends b bytes
unfolding Appends
add-Appends bytes v fits =
    let (b', w, which) = add-Adds bytes v (omega (arith, fits)) in
    elim which [
      | inl (e, same, full) ↦ absurd (omega (arith, full, fits))
      | inr (e, same, room) ↦ (b', e, w, same)
    ]

added :
    {b : Buffer} (bytes : List ℕ)
    → IsValid b
    → length bytes < 2 ^ 31
    → (r : Option ℕ) × (b' : Buffer) × (add b bytes ≡ some (r, b')) × IsValid b'
added bytes v small =
    let (b', w, which) = add-Adds bytes v small in
    elim which [
      | inl (e, same, full) ↦ (none, b', e, w)
      | inr (e, same, room) ↦ (some b'.write, b', e, w)
    ]

module _ (bytes : List ℕ) (more : Reads) where
  pub arrived_last : ltb (length bytes) to_read ≡ true → arrived (block bytes more) ≡ bytes
  unfolding arrived
  arrived_last last = rw (arrived, last) refl

  arrived_full :
      ltb (length bytes) to_read ≡ false → arrived (block bytes more) ≡ bytes ++ arrived more
  unfolding arrived
  arrived_full full = rw (arrived, full) refl

  module _ (b b' : Buffer) (r : Option ℕ) (any : 0 < length bytes)
      (e : add b bytes ≡ some (r, b')) where
    read_last : ltb (length bytes) to_read ≡ true → read (block bytes more) b ≡ some (pos 0, b')
    unfolding read
    read_last last = rw (some_bytes (length bytes) any, e, last) refl

    read_full : ltb (length bytes) to_read ≡ false → read (block bytes more) b ≡ read more b'
    unfolding read
    read_full full = rw (some_bytes (length bytes) any, e, full) refl

-- What the loop does with a valid buffer that has room for all that arrives.
abbrev pub Receives : Reads → Buffer → Type 0
Receives got b =
    (b' : Buffer) × (read got b ≡ some (pos 0, b'))
    × IsValid b'
    × (unread b' ≡ unread b ++ arrived got)

-- Bytes that arrive without an error, and leave a valid buffer below the size of its array, are all
-- appended to the unread bytes, block by block, until a block does not fill the array of the read; the
-- loop returns 0.
pub read-Receives :
    (got : Reads) (b : Buffer)
    → IsValid b
    → IsFine got
    → length (unread b) + length (arrived got) < max_buffer_size
    → Receives got b
unfolding read arrived Appends
read-Receives interrupted b v fine fits = (b, refl, v, sym (append-nil (unread b)))
read-Receives again b v fine fits = (b, refl, v, sym (append-nil (unread b)))
read-Receives failed b v fine fits = absurd fine
read-Receives (block bytes more) b v (any, small, on) fits =
    elim (Bool-cases (ltb (length bytes) to_read)) [
      | inl last ↦
          let all = arrived_last bytes more last in
          let (b', e, w, same) = add-Appends bytes v (omega (arith, fits, ap length all)) in
          (
            b',
            read_last bytes more b b' (some b'.write) any e last,
            w,
            same ∙ ap (λ x. unread b ++ x) (sym all),
          )
      | inr full ↦
          let all = arrived_full bytes more full in
          let sizes : length (unread b) + (length bytes + length (arrived more)) < max_buffer_size =
            omega (arith, fits, ap length all, length-append bytes (arrived more)) in
          let (b', e, w, same) = add-Appends bytes v (omega (arith, sizes)) in
          let (b'', e', w', same') =
            read-Receives more b' w (on (ltb_false→le _ _ full))
              (omega (arith, sizes, ap length same, length-append (unread b) bytes)) in
          (
            b'',
            read_full bytes more b b' (some b'.write) any e full ∙ e',
            w',
            same'
                ∙ ap (λ x. x ++ arrived more) same
                ∙ append_assoc (unread b) bytes (arrived more)
                ∙ ap (λ x. unread b ++ x) (sym all),
          )
    ]

-- Whatever arrives, the loop does not write past the array of a valid buffer, which stays valid.
pub read-IsValid :
    (got : Reads) (b : Buffer)
    → IsValid b
    → IsSmall got
    → (r : ℤ) × (b' : Buffer) × (read got b ≡ some (r, b')) × IsValid b'
unfolding read
read-IsValid interrupted b v small = (_, b, refl, v)
read-IsValid again b v small = (_, b, refl, v)
read-IsValid failed b v small = (_, b, refl, v)
read-IsValid (block bytes more) b v (small, on) = elim (Bool-cases (length bytes == 0)) [
  | inl nothing ↦ (negsuc 0, b, rw (read, nothing) refl, v)
  | inr any ↦
      let (r, b', e, w) = added bytes v (omega (arith, small)) in
      elim (Bool-cases (ltb (length bytes) to_read)) [
        | inl last ↦ (pos 0, b', rw (read, any, e, last) refl, w)
        | inr full ↦
            let (r', b'', e', w') = read-IsValid more b' w (on (ltb_false→le _ _ full)) in
            (r', b'', rw (read, any, e, full) e', w')
      ]
]
