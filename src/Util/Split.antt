-- ===== src/Util/Split.antt =====
-- What `split` gives: the parts that are ended by the separator, and not what is behind the last.
use windnet_game.Prelude.{
  ℕ, ◌≡◌, ◌≢◌, refl, ap, List, [], ◌∷◌, ◌++◌, append-nil, append_assoc, arith,
}
use windnet_game.Util.{split, split_from}

-- No byte of the text is `c`.
abbrev pub Lacks : ℕ → List ℕ → Type 0
Lacks c [] = Unit {0}
Lacks c (x ∷ xs) = (x ≢ c) × Lacks c xs

abbrev pub AllLack : ℕ → List (List ℕ) → Type 0
AllLack c [] = Unit {0}
AllLack c (p ∷ ps) = Lacks c p × AllLack c ps

-- Each part with the separator behind it.
abbrev pub ended : ℕ → List (List ℕ) → List ℕ
ended c [] = []
ended c (p ∷ ps) = p ++ (c ∷ ended c ps)

pub Lacks-append : (c : ℕ) (xs ys : List ℕ) → Lacks c xs → Lacks c ys → Lacks c (xs ++ ys)
Lacks-append c [] ys h k = k
Lacks-append c (x ∷ xs) ys h k = (h.0, Lacks-append c xs ys h.1 k)

-- A text without the separator is only collected.
split_tail : (c : ℕ) (val tail : List ℕ) → Lacks c tail → split_from c val tail ≡ []
unfolding split_from
split_tail c val [] h = refl
split_tail c val (x ∷ tail) h = ground (arith, split_tail c (val ++ x ∷ []) tail h.1)

split_part :
    (c : ℕ) (val part rest : List ℕ)
    → Lacks c part
    → split_from c val (part ++ c ∷ rest) ≡ (val ++ part) ∷ split_from c [] rest
unfolding split_from
split_part c val [] rest h = rw append-nil (ground arith)
split_part c val (x ∷ part) rest h =
    ground (arith, split_part c (val ++ x ∷ []) part rest h.1, append_assoc val (x ∷ []) part)

-- `split` gives back the parts of a text in which a separator ends each part, none has a separator
-- inside, and a last piece without a separator may follow; that last piece is lost.
pub split_lem :
    (c : ℕ) (parts : List (List ℕ)) (tail : List ℕ)
    → AllLack c parts
    → Lacks c tail
    → split (ended c parts ++ tail) c ≡ parts
unfolding split
split_lem c [] tail h k = split_tail c [] tail k
split_lem c (p ∷ parts) tail h k =
    rw (append_assoc p (c ∷ ended c parts) tail, split_part c [] p (ended c parts ++ tail) h.0)
      (ap (◌∷◌ p) (split_lem c parts tail h.1 k))
