-- ===== src/SoulsBag/FreeIndex.antt =====
-- SoulsBag::nextHuntSoulIndex finds an index that no hunted soul has.
use mathlib.Core.Option.{some-injective}
use windnet_game.Prelude.{
  ℕ, zero, suc, ◌+◌, ◌%◌, ◌^◌, ◌≤◌, ◌<◌, ◌≡◌, ◌≢◌, refl, sym, ap, ◌∙◌, ◌⊎◌, inl, inr, ℤ, pos,
  pos_part, int16-eq, false, Option, none, some, List, [], ◌∷◌, length, length-set,
  length-replicate, get_elem?, get_elem?-set_ne, get_elem?-set-some, lt-length, set, replicate, Map,
  ◌==◌, ==_iff, Bool-cases, Option-cases, arith,
}
use windnet_game.Prelude.Fault.{◌>>=◌}
use windnet_game.SoulsBag.{
  SoulItem, SoulStore, soul_index, soul_at, count_index, count_souls, first_zero, free_index,
  next_hunt_soul_index,
}

abbrev total : List ℕ → ℕ
total [] = 0
total (c ∷ counts) = c + total counts

-- Every soul of the map is there, with an index that is not negative.
abbrev pub Alive : List (Option SoulItem) → Map ℤ ℕ → Type 0
Alive souls [] = Unit {0}
Alive souls ((id, a) ∷ m) =
    ((soul : SoulItem) × (k : ℕ) × (soul_at souls a ≡ some soul) × (soul_index soul ≡ pos k))
    × Alive souls m

-- No soul of the map has the index `n`.
abbrev pub Unused : List (Option SoulItem) → Map ℤ ℕ → ℕ → Type 0
Unused souls [] n = Unit {0}
Unused souls ((id, a) ∷ m) n =
    ((soul : SoulItem) → soul_at souls a ≡ some soul → soul_index soul ≢ pos n) × Unused souls m n

total-set :
    (counts : List ℕ) (k c : ℕ)
    → get_elem? counts k ≡ some c
    → total (set counts k (c + 1)) ≡ total counts + 1
total-set [] k c e = cc
total-set (x ∷ counts) zero c e = omega (arith, some-injective _ _ e)
total-set (x ∷ counts) (suc k) c e = omega (arith, total-set counts k c e)

le-total : (counts : List ℕ) (k c : ℕ) → get_elem? counts k ≡ some c → c ≤ total counts
le-total [] k c e = cc
le-total (x ∷ counts) zero c e = omega (arith, some-injective _ _ e)
le-total (x ∷ counts) (suc k) c e = omega (arith, le-total counts k c e)

-- What counting gives.
record Counted (souls : List (Option SoulItem)) (m : Map ℤ ℕ) (counts final : List ℕ) : Type 0 where
  totals : total final ≤ total counts + length m
  size : length final ≡ length counts
  grows :
      (n c : ℕ) → get_elem? counts n ≡ some c → (c' : ℕ) × (get_elem? final n ≡ some c') × (c ≤ c')
  zero_unused : (n : ℕ) → get_elem? final n ≡ some 0 → Unused souls m n
  high_unused :
      (n : ℕ) → length counts ≤ n → total final ≡ total counts + length m → Unused souls m n

-- One soul is counted.
counted_one :
    (k : ℕ) (counts : List ℕ)
    → total counts + 1 < 2 ^ 16
    → ((count_index (pos k) counts ≡ some counts) × (length counts ≤ k))
      ⊎ ((c : ℕ) × (get_elem? counts k ≡ some c)
          × (count_index (pos k) counts ≡ some (set counts k (c + 1))))
unfolding count_index
counted_one k counts small = elim (Option-cases (get_elem? counts k)) [
  | inl out ↦ inl (rw (count_index, out) refl, none-le counts k out)
  | inr (c, there) ↦
      inr (c, there, rw (count_index, there) (ap (λ x. some (set counts k x)) (small_mod c there)))
]
  where
    none-le : (xs : List ℕ) (k : ℕ) → get_elem? xs k ≡ none → length xs ≤ k
    none-le [] k e = omega arith
    none-le (x ∷ xs) zero e = cc
    none-le (x ∷ xs) (suc k) e = omega (arith, none-le xs k e)

    small_mod : (c : ℕ) → get_elem? counts k ≡ some c → (c + 1) % 2 ^ 16 ≡ c + 1
    small_mod c e = omega (arith, le-total counts k c e)

not_index :
    (souls : List (Option SoulItem)) (a : ℕ) {n k : ℕ} (soul other : SoulItem)
    → soul_at souls a ≡ some soul
    → soul_index soul ≡ pos k
    → k ≢ n
    → soul_at souls a ≡ some other
    → soul_index other ≢ pos n
not_index souls a soul other e index differ f g =
    differ (ap pos_part (sym index ∙ ap soul_index (some-injective _ _ (sym e ∙ f)) ∙ g))

count-Counted :
    (souls : List (Option SoulItem)) (m : Map ℤ ℕ) (counts : List ℕ)
    → Alive souls m
    → total counts + length m < 2 ^ 16
    → (final : List ℕ) × (count_souls souls m counts ≡ some final) × Counted souls m counts final
unfolding count_souls
count-Counted souls [] counts alive small = (
  counts,
  refl,
  record {
    totals = omega arith;
    size = refl;
    grows = λ n c e. (c, e, omega arith);
    zero_unused = λ n e. tt;
    high_unused = λ n low e. tt;
  },
)
count-Counted souls ((id, a) ∷ m) counts ((soul, k, there, index), alive) small =
    elim (counted_one k counts (omega arith)) [
      | inl (same, out) ↦
          let (final, e, d) = count-Counted souls m counts alive (omega arith) in
          (
            final,
            rw (count_souls, there, ◌>>=◌, index, same) e,
            record {
              totals = omega (arith, d.totals);
              size = d.size;
              grows = d.grows;
              zero_unused = λ n z. (
                (λ other f.
                    not_index souls a soul other there index
                      (λ at. absurd (omega (arith, lt-length final n 0 z, d.size))) f),
                d.zero_unused n z,
              );
              high_unused = λ n low all. absurd (omega (arith, d.totals));
            },
          )
      | inr (c, at_k, counted) ↦
          let more = set counts k (c + 1) in
          let up : total more ≡ total counts + 1 = total-set counts k c at_k in
          let (final, e, d) = count-Counted souls m more alive (omega (arith, up)) in
          let (top, at_top, above) =
            d.grows k (c + 1) (get_elem?-set-some counts k c (c + 1) at_k) in
          (
            final,
            rw (count_souls, there, ◌>>=◌, index, counted) e,
            record {
              totals = omega (arith, d.totals, up);
              size = d.size ∙ length-set counts k (c + 1);
              grows = λ n c' f. elim (Bool-cases (k == n)) [
                | inl same ↦
                    let at : k ≡ n = (==_iff k n).0 same in
                    let equal : c ≡ c' =
                      some-injective _ _ (sym at_k ∙ ap (get_elem? counts) at ∙ f) in
                    (top, ap (get_elem? final) (sym at) ∙ at_top, omega (arith, above, equal))
                | inr differ ↦
                    d.grows n c' (get_elem?-set_ne counts k n (c + 1) (λ at. ground arith) ∙ f)
              ];
              zero_unused = λ n z. (
                (λ other f.
                    not_index souls a soul other there index
                      (λ at.
                        let none_there : top ≡ 0 =
                          some-injective _ _ (sym at_top ∙ ap (get_elem? final) at ∙ z) in
                        absurd (omega (arith, above, none_there)))
                      f),
                d.zero_unused n z,
              );
              high_unused = λ n low all. (
                (λ other f.
                    not_index souls a soul other there index
                      (λ at. absurd (omega (arith, lt-length counts k c at_k, low))) f),
                d.high_unused n (omega (arith, low, length-set counts k (c + 1)))
                    (omega (arith, all, up)),
              );
            },
          )
    ]

first_zero_cases :
    (counts : List ℕ)
    → (get_elem? counts (first_zero counts) ≡ some 0)
      ⊎ ((first_zero counts ≡ length counts) × (length counts ≤ total counts))
unfolding first_zero
first_zero_cases [] = inr (refl, omega arith)
first_zero_cases (c ∷ counts) = elim (Bool-cases (c == 0)) [
  | inl empty ↦ inl (rw empty (ap some ((==_iff c 0).0 empty)))
  | inr full ↦ elim (first_zero_cases counts) [
    | inl e ↦ inl (rw full e)
    | inr (e, all) ↦ inr (rw full (ap suc e), omega (arith, all, positive c full))
  ]
]
  where
    positive : (c : ℕ) → (c == 0) ≡ false → 1 ≤ c
    positive c e = ground arith

first_zero-le : (counts : List ℕ) → first_zero counts ≤ length counts
first_zero-le counts = elim (first_zero_cases counts) [
  | inl e ↦ omega (arith, lt-length counts (first_zero counts) 0 e)
  | inr (e, _) ↦ omega (arith, e)
]

total-replicate : (n : ℕ) → total (replicate n 0) ≡ 0
total-replicate zero = refl
total-replicate (suc n) = omega (arith, total-replicate n)

-- `nextHuntSoulIndex` gives an index that no hunted soul has and that is at most their number,
-- where every hunted soul is there with an index that is not negative and their number is a
-- `short`.
pub next_hunt_soul_index-Unused :
    (s : SoulStore)
    → Alive s.souls s.hunted
    → length s.hunted < 2 ^ 15
    → (n : ℕ) × (next_hunt_soul_index s ≡ some n)
      × (n ≤ length s.hunted)
      × Unused s.souls s.hunted n
unfolding next_hunt_soul_index free_index
next_hunt_soul_index-Unused s alive small = elim (Bool-cases (length s.hunted == 0)) [
  | inl empty ↦ (
    0,
    rw (next_hunt_soul_index, empty) refl,
    omega arith,
    none_hunted s.hunted ((==_iff (length s.hunted) 0).0 empty),
  )
  | inr some_hunted ↦
      let zeros = replicate (length s.hunted) 0 in
      let size : length zeros ≡ length s.hunted = length-replicate (length s.hunted) 0 in
      let (final, e, d) =
        count-Counted s.souls s.hunted zeros alive
          (omega (arith, total-replicate (length s.hunted))) in
      (
        first_zero final,
        rw
            (
              next_hunt_soul_index,
              some_hunted,
              int16-eq (pos (length s.hunted)) (omega arith),
              free_index,
              e,
            )
            refl,
        omega (arith, first_zero-le final, d.size, size),
        elim (first_zero_cases final) [
          | inl z ↦ d.zero_unused (first_zero final) z
          | inr (high, all) ↦
              d.high_unused (first_zero final) (omega (arith, high, d.size))
                (omega (arith, d.totals, all, d.size, size, total-replicate (length s.hunted)))
        ],
      )
]
  where
    none_hunted : (m : Map ℤ ℕ) → length m ≡ 0 → Unused s.souls m 0
    none_hunted [] e = tt
    none_hunted (x ∷ m) e = absurd (omega arith)
