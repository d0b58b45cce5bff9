-- ===== src/Prelude/Dict.antt =====
-- std::map: an association list in the order of the keys. The laws on `find` hold of any list.
use Prim.Native.Nat.{Ordering}
use Prim.Native.String.{String}
use Prim.Native.String
use mathlib.Core.Path.{◌≡◌, refl}
use mathlib.Core.Bool.{Bool, true, false}
use mathlib.Core.Logic.{◌↔◌}
use mathlib.Core.Option.{Option, none, some}
use mathlib.Core.List.{List, [], ◌∷◌}
use native.Mathlib.Omega.{arith}
use text.Mathlib.Text.{◌==◌ as str_eq}
use text.Mathlib.TextEquality.{eq_iff}
use windnet_game.Prelude.Tests.{if◌then◌else◌}
use windnet_game.Prelude.Int.{ℤ, ltb_ℤ, ◌==ℤ◌, ==ℤ_iff}

-- What a key type offers: `operator<`, and equality, which decides paths.
pub record Key {ℓ} (K : Type ℓ) : Type ℓ where
  pub less : K → K → Bool
  pub same : K → K → Bool
  pub same_iff : (a b : K) → (same a b ≡ true) ↔ (a ≡ b)

instance abbrev pub int_key : Key ℤ
int_key = record { less = ltb_ℤ; same = ◌==ℤ◌; same_iff = ==ℤ_iff }

abbrev str_less : String → String → Bool
str_less s t = elim (String.compare s t) [ Ordering.lt ↦ true | _ ↦ false ]

instance abbrev pub string_key : Key String
string_key = record { less = str_less; same = str_eq; same_iff = eq_iff }

abbrev pub Map {ℓ κ} : Type ℓ → Type κ → Type (ℓ ⊔ κ)
Map K V = List (K × V)

module _ {ℓ κ} {K : Type ℓ} ⦃key : Key K⦄ {V : Type κ} where
  unfoldable pub find : K → Map K V → Option V
  find k [] = none
  find k ((j, v) ∷ m) = if key.same j k then some v else find k m

  -- m[k] = v
  unfoldable pub put : K → V → Map K V → Map K V
  put k v [] = (k, v) ∷ []
  put k v ((j, w) ∷ m) =
      let rest = put k v m in
      if key.same j k
      then (k, v) ∷ m
      else if key.less k j
      then (k, v) ∷ (j, w) ∷ m
      else (j, w) ∷ rest

  -- m.insert(make_pair(k, v)): a key that is there keeps its value.
  unfoldable pub insert : K → V → Map K V → Map K V
  insert k v m = elim (find k m) [ none ↦ put k v m | some w ↦ m ]

  -- m.erase(k)
  unfoldable pub erase : K → Map K V → Map K V
  erase k [] = []
  erase k ((j, w) ∷ m) = let rest = erase k m in if key.same j k then rest else (j, w) ∷ rest

  -- m.lower_bound(k): the first entry whose key is not less than `k`.
  unfoldable pub lower_bound : K → Map K V → Option (K × V)
  lower_bound k [] = none
  lower_bound k ((j, w) ∷ m) = if key.less j k then lower_bound k m else some (j, w)

  -- m.upper_bound(k): the first entry whose key is greater than `k`.
  unfoldable pub upper_bound : K → Map K V → Option (K × V)
  upper_bound k [] = none
  upper_bound k ((j, w) ∷ m) = if key.less k j then some (j, w) else upper_bound k m

  pub find-put :
      (k j : K) (v : V) (m : Map K V)
      → find j (put k v m) ≡ (if key.same k j then some v else find j m)
  unfolding find put
  find-put k j v [] = refl
  find-put k j v ((i, w) ∷ m) =
      ground (arith, find-put k j v m, key.same_iff i k, key.same_iff i j, key.same_iff k j)

  pub find-erase :
      (k j : K) (m : Map K V) → find j (erase k m) ≡ (if key.same k j then none else find j m)
  unfolding find erase
  find-erase k j [] = ground arith
  find-erase k j ((i, w) ∷ m) =
      ground (arith, find-erase k j m, key.same_iff i k, key.same_iff i j, key.same_iff k j)

pub find-insert {ℓ κ} :
    {K : Type ℓ} ⦃key : Key K⦄ {V : Type κ} (k j : K) (v : V) (m : Map K V)
    → find k m ≡ none
    → find j (insert k v m) ≡ (if key.same k j then some v else find j m)
unfolding insert
find-insert k j v m h = ground (arith, find-put k j v m)
