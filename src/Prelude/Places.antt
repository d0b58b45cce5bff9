-- ===== src/Prelude/Places.antt =====
-- What stands at the places of a list that was written or resized.
use mathlib.Core.Option.{some-injective, some-ne-none}
use windnet_game.Prelude.{
  ℕ, zero, suc, ◌≤◌, ◌≡◌, ◌≢◌, refl, sym, ap, ◌⊎◌, inl, inr, some, List, ◌++◌, [], ◌∷◌, length,
  get_elem?, set, resize, drop, arith, get_or, none, Option,
}

module _ {ℓ} {A : Type ℓ} where
  pub get_elem?-set :
      (xs : List A) (i : ℕ) (v : A) (j : ℕ) (w : A)
      → get_elem? (set xs i v) j ≡ some w
      → ((j ≡ i) × (w ≡ v)) ⊎ ((j ≢ i) × (get_elem? xs j ≡ some w))
  get_elem?-set [] i v j w h = cc
  get_elem?-set (y ∷ xs) zero v zero w h = inl (refl, sym (some-injective _ _ h))
  get_elem?-set (y ∷ xs) zero v (suc j) w h = inr ((λ e. absurd (omega arith)), h)
  get_elem?-set (y ∷ xs) (suc i) v zero w h = inr ((λ e. absurd (omega arith)), h)
  get_elem?-set (y ∷ xs) (suc i) v (suc j) w h = elim (get_elem?-set xs i v j w h) [
    | inl (e, k) ↦ inl (ap suc e, k)
    | inr (e, k) ↦ inr ((λ d. e (omega arith)), k)
  ]

  pub get_elem?-resize :
      (xs : List A) (n : ℕ) (d : A) (j : ℕ) (w : A)
      → get_elem? (resize xs n d) j ≡ some w
      → (get_elem? xs j ≡ some w) ⊎ (w ≡ d)
  get_elem?-resize xs zero d j w h = cc
  get_elem?-resize [] (suc n) d zero w h = inr (sym (some-injective _ _ h))
  get_elem?-resize [] (suc n) d (suc j) w h = elim (get_elem?-resize [] n d j w h) [
    | inl e ↦ cc
    | inr e ↦ inr e
  ]
  get_elem?-resize (x ∷ xs) (suc n) d zero w h = inl h
  get_elem?-resize (x ∷ xs) (suc n) d (suc j) w h = get_elem?-resize xs n d j w h

  pub get_elem?-resize_le :
      (xs : List A) (n : ℕ) (d : A) (j : ℕ) (w : A)
      → length xs ≤ n
      → get_elem? xs j ≡ some w
      → get_elem? (resize xs n d) j ≡ some w
  get_elem?-resize_le [] n d j w h e = cc
  get_elem?-resize_le (x ∷ xs) zero d j w h e = elim h [ ]
  get_elem?-resize_le (x ∷ xs) (suc n) d zero w h e = e
  get_elem?-resize_le (x ∷ xs) (suc n) d (suc j) w h e =
      get_elem?-resize_le xs n d j w (omega arith) e

  pub get_elem?-drop_1 : (xs : List A) (j : ℕ) → get_elem? (drop 1 xs) j ≡ get_elem? xs (suc j)
  get_elem?-drop_1 [] j = refl
  get_elem?-drop_1 (x ∷ xs) j = refl

module _ {ℓ} {A : Type ℓ} where
  pub get_elem?-append_left :
      (xs ys : List A) (i : ℕ) (x : A) → get_elem? xs i ≡ some x → get_elem? (xs ++ ys) i ≡ some x
  get_elem?-append_left [] ys i x e = absurd (some-ne-none x (sym e))
  get_elem?-append_left (y ∷ xs) ys zero x e = e
  get_elem?-append_left (y ∷ xs) ys (suc i) x e = get_elem?-append_left xs ys i x e

  pub get_elem?-append_here :
      (xs ys : List A) (x : A) → get_elem? (xs ++ x ∷ ys) (length xs) ≡ some x
  get_elem?-append_here [] ys x = refl
  get_elem?-append_here (y ∷ xs) ys x = get_elem?-append_here xs ys x

pub get_or-set-none {ℓ} :
    {A : Type ℓ} (xs : List (Option A)) (i : ℕ) → get_or (set xs i none) i none ≡ none
get_or-set-none [] i = refl
get_or-set-none (x ∷ xs) zero = refl
get_or-set-none (x ∷ xs) (suc i) = get_or-set-none xs i

module _ {ℓ} {A : Type ℓ} where
  pub get_or-here : (xs : List A) (i : ℕ) (d x : A) → get_elem? xs i ≡ some x → get_or xs i d ≡ x
  get_or-here [] i d x e = absurd (some-ne-none x (sym e))
  get_or-here (y ∷ xs) zero d x e = some-injective _ _ e
  get_or-here (y ∷ xs) (suc i) d x e = get_or-here xs i d x e

  pub get_elem?-set_here :
      (xs : List A) (i : ℕ) (v w : A) → get_elem? xs i ≡ some w → get_elem? (set xs i v) i ≡ some v
  get_elem?-set_here [] i v w e = absurd (some-ne-none w (sym e))
  get_elem?-set_here (x ∷ xs) zero v w e = refl
  get_elem?-set_here (x ∷ xs) (suc i) v w e = get_elem?-set_here xs i v w e
