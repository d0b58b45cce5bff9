-- ===== src/Item/Gems.antt =====
-- The gems of an item on the way to the database and back.
use mathlib.Core.Path.{subst}
use mathlib.Core.Option.{some-injective}
use windnet_game.Prelude.{
  ℕ, zero, suc, ◌+◌, ◌/◌, ◌%◌, ◌≡◌, refl, ap, ℤ, pos, negsuc, int8, Option, none, some, List, [],
  ◌∷◌, ◌++◌, ltb, ◌==◌, arith, inl, inr, Option-cases, Bool-cases,
}
use windnet_game.Util.{split}
use windnet_game.Util.Split.{Lacks, Lacks-append, split_lem}
use windnet_game.Item.{
  Item, Gem, print_nat, print_int, print_char, gem_text, print_gems, drop_last, c_str, flush_to_db,
}

abbrev semicolon : ℕ
semicolon = b';'

-- boost::lexical_cast<int> on each of four fields; `none` is its exception.
abbrev read_gem : (List ℕ → Option ℤ) → List ℕ → List ℕ → List ℕ → List ℕ → Option Gem
read_gem cast a b c d = elim (cast a) [
  | none ↦ none
  | some id ↦ elim (cast b) [
    | none ↦ none
    | some gem_id ↦ elim (cast c) [
      | none ↦ none
      | some at ↦ elim (cast d) [
        | none ↦ none
        | some exp ↦ some (record { id = id; gem_id = gem_id; pos_in_item = int8 at; exp = exp })
      ]
    ]
  ]
]

-- One piece of the text: skipped if it has not four fields (the inner `none`).
abbrev gem_of : (List ℕ → Option ℤ) → List (List ℕ) → Option (Option Gem)
gem_of cast (a ∷ b ∷ c ∷ d ∷ []) = elim (read_gem cast a b c d) [
  | none ↦ none
  | some g ↦ some (some g)
]
gem_of cast _ = some none

load_pieces : (List ℕ → Option ℤ) → List (List ℕ) → Option (List Gem)
load_pieces cast [] = some []
load_pieces cast (piece ∷ pieces) = elim (gem_of cast (split piece b',')) [
  | none ↦ none
  | some none ↦ load_pieces cast pieces
  | some (some g) ↦ elim (load_pieces cast pieces) [ none ↦ none | some gems ↦ some (g ∷ gems) ]
]

-- The part of loadFromDB of item_bag.cpp that reads the column `gems`. `cast` stands for
-- boost::lexical_cast<int>.
pub load_gems : (List ℕ → Option ℤ) → List ℕ → Option (List Gem)
unfolding load_pieces
load_gems cast text = load_pieces cast (split text semicolon)

Lacks-print_nat : (fuel n : ℕ) → Lacks semicolon (print_nat fuel n)
Lacks-print_nat zero n = tt
Lacks-print_nat (suc fuel) n =
    let rest =
      Lacks-append semicolon (print_nat fuel (n / 10)) ((48 + n % 10) ∷ [])
        (Lacks-print_nat fuel (n / 10)) ((λ e. absurd (omega arith)), tt) in
    elim (Bool-cases (ltb n 10)) [
      | inl small ↦ rw small ((λ e. absurd (ground arith)), tt)
      | inr large ↦ rw large rest
    ]

Lacks-print_int : (z : ℤ) → Lacks semicolon (print_int z)
unfolding print_int
Lacks-print_int (pos n) = Lacks-print_nat 10 n
Lacks-print_int (negsuc n) = ((λ e. absurd (omega arith)), Lacks-print_nat 10 (suc n))

-- No gem sits at the position whose byte is the semicolon.
abbrev pub PlainGems : List (Option Gem) → Type 0
PlainGems [] = Unit {0}
PlainGems (none ∷ gems) = PlainGems gems
PlainGems (some g ∷ gems) = Lacks semicolon (print_char g.pos_in_item) × PlainGems gems

comma : (xs : List ℕ) → Lacks semicolon xs → Lacks semicolon (b',' ∷ xs)
comma xs h = ((λ e. absurd (omega arith)), h)

Lacks-gem_text :
    (g : Gem) → Lacks semicolon (print_char g.pos_in_item) → Lacks semicolon (gem_text g)
Lacks-gem_text g h = Lacks-append semicolon (print_int g.id) _ (Lacks-print_int g.id) (
    comma _ (
      Lacks-append semicolon (print_int g.gem_id) _ (Lacks-print_int g.gem_id) (
        comma _ (
          Lacks-append semicolon (print_char g.pos_in_item) _ h
            (comma _ (Lacks-print_int g.exp))))))

print_null : (before after : List (Option Gem)) → print_gems (before ++ none ∷ after) ≡ none
unfolding print_gems
print_null [] after = refl
print_null (none ∷ before) after = refl
print_null (some g ∷ before) after = rw (print_null before after)

Lacks-print_gems :
    (gems : List (Option Gem)) (text : List ℕ)
    → PlainGems gems
    → print_gems gems ≡ some text
    → Lacks semicolon text
unfolding print_gems
Lacks-print_gems [] text h e = subst (Lacks semicolon) (some-injective _ _ e) tt
Lacks-print_gems (none ∷ gems) text h e = cc
Lacks-print_gems (some g ∷ gems) text h e = elim (Option-cases (print_gems gems)) [
  | inl fault ↦ absurd (ground arith)
  | inr (rest, e') ↦ subst (Lacks semicolon) (some-injective _ _ (rw (e', print_gems) at e)) (
      Lacks-append semicolon (gem_text g) rest (Lacks-gem_text g h.0)
        (Lacks-print_gems gems rest h.1 e'))
]

Lacks-drop_last : (text : List ℕ) → Lacks semicolon text → Lacks semicolon (drop_last text)
Lacks-drop_last [] h = h
Lacks-drop_last (x ∷ []) h = tt
Lacks-drop_last (x ∷ y ∷ text) h = (h.0, Lacks-drop_last (y ∷ text) h.1)

Lacks-c_str : (text : List ℕ) → Lacks semicolon text → Lacks semicolon (c_str text)
Lacks-c_str [] h = h
Lacks-c_str (x ∷ text) (h, hs) = elim (Bool-cases (x == 0)) [
  | inl zero_byte ↦ rw zero_byte tt
  | inr other ↦ rw other (h, Lacks-c_str text hs)
]

-- The gems that `flushToDB` writes are never read back: if there is no empty position among an
-- item's gems and the byte of no gem's position is the semicolon, `loadFromDB` finds no gem in the
-- text that was written, which ends in front of a position's byte 0.
pub gems_lost :
    (cast : List ℕ → Option ℤ) (gems : List (Option Gem)) (text : List ℕ)
    → PlainGems gems
    → print_gems gems ≡ some text
    → load_gems cast (c_str (drop_last text)) ≡ some []
unfolding load_gems
gems_lost cast gems text h e = rw (
    split_lem semicolon [] (c_str (drop_last text)) tt
      (Lacks-c_str (drop_last text) (Lacks-drop_last text (Lacks-print_gems gems text h e))))

-- `flushToDB` of an item that has an empty position among its gems uses a null pointer.
flush_null :
    (it : Item) (before after : List (Option Gem))
    → it.gems ≡ before ++ none ∷ after
    → flush_to_db it ≡ none
unfolding flush_to_db
flush_null it before after e = rw (ap print_gems e, print_null before after, flush_to_db) refl
