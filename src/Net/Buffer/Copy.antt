-- ===== src/Net/Buffer/Copy.antt =====
-- Buffer::copyIn on the stream of unread bytes, and the reading over some of them.
use mathlib.Core.Option.{some-injective, some-ne-none}
use windnet_game.Prelude.{
  ap, inl, inr, Option-cases, ℕ, ◌+◌, ◌%◌, ◌≤◌, ◌<◌, ◌^◌, ◌≡◌, refl, sym, ◌∙◌, none, some, List,
  ◌++◌, length, take, drop, drop-drop, drop-take, arith,
}
use windnet_game.Net.Buffer.{Buffer, max_buffer_size, overwrite, copy_in}
use windnet_game.Net.Buffer.Stream.{
  IsValid, unread, length-unread, length-overwrite, overwrite-some, window-overwrite,
}

-- `copyIn` of a block that fits appends it to the unread bytes of a valid buffer.
pub copy_in-unread :
    {b : Buffer} (from : List ℕ)
    → IsValid b
    → b.write + length from ≤ max_buffer_size
    → (b' : Buffer) × (copy_in b (some from) (length from) ≡ some b')
      × IsValid b'
      × (unread b' ≡ unread b ++ from)
unfolding copy_in
copy_in-unread {b} from v fits = (
  b',
  rw (copy_in, overwrite-some b.bytes b.write from (omega (arith, v.size))) refl,
  record {
    ordered = omega (arith, v.ordered);
    within = omega (arith, fits);
    size = length-overwrite b.bytes b.write from (omega (arith, v.size)) ∙ v.size;
  },
  window-overwrite b.read b.write _ _ b.bytes from _ (omega (arith, v.ordered))
      (omega (arith, v.ordered)) (omega (arith, v.size)),
)
  where
    b' : Buffer
    b' = record b {
      write = (b.write + length from) % 2 ^ 32;
      bytes = take b.write b.bytes ++ (from ++ drop (b.write + length from) b.bytes);
    }

-- `copyIn` to a valid buffer of a block that does not fit writes past the end of the array.
pub copy_in-overruns :
    {b : Buffer} (from : List ℕ)
    → IsValid b
    → max_buffer_size < b.write + length from
    → copy_in b (some from) (length from) ≡ none
unfolding copy_in overwrite
copy_in-overruns {b} from v over = ground (arith, v.size)

-- The read position stays.
pub copy_in-read :
    (b : Buffer) (from : List ℕ) (size : ℕ) (b' : Buffer)
    → copy_in b (some from) size ≡ some b'
    → b'.read ≡ b.read
unfolding copy_in
copy_in-read b from size b' e = elim (Option-cases (overwrite b.bytes b.write from)) [
  | inl gone ↦ absurd (some-ne-none b' (sym (rw (copy_in, gone) at e)))
  | inr (new, there) ↦ ap (λ x. x.read) (sym (some-injective _ _ (rw (copy_in, there) at e)))
]

-- Moving the read position over some unread bytes.
abbrev pub skip : Buffer → ℕ → Buffer
skip b n = record b { read = (b.read + n) % 2 ^ 32 }

pub skip-unread :
    {b : Buffer} (n : ℕ)
    → IsValid b
    → n ≤ length (unread b)
    → IsValid (skip b n) × (unread (skip b n) ≡ drop n (unread b))
skip-unread {b} n v h = (
  record { ordered = omega (arith, moved, length-unread v); within = v.within; size = v.size },
  rw (moved, drop-drop (b.read + n) b.read n b.bytes refl)
      (sym (drop-take n _ _ (drop b.read b.bytes) (omega (arith, length-unread v)))),
)
  where
    moved : (b.read + n) % 2 ^ 32 ≡ b.read + n
    moved = omega (arith, length-unread v, v.within)
