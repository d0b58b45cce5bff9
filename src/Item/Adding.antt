-- ===== src/Item/Adding.antt =====
-- Item::addGem.
use windnet_game.Prelude.{
  ℕ, suc, ◌<◌, ◌≡◌, ◌≢◌, refl, ap, ◌∙◌, ◌⊎◌, inl, inr, pos, false, Option, none, some, List, [],
  ◌∷◌, length, length-resize, get_elem?, get_elem?-set_self, get_elem?-set_ne, set, resize, ltb,
  ltb→lt, ltb_false→le, if◌then◌else◌, Bool-cases, Option-cases, arith,
}
use windnet_game.Prelude.Places.{get_elem?-resize_le}
use windnet_game.Item.{Item, Gem, place_gem, add_gem, print_gems, flush_to_db}

-- The gems with room for one at place `n`.
grown : List (Option Gem) → ℕ → List (Option Gem)
grown gems n = if ltb n (length gems) then gems else resize gems (suc n) none

grown-long : (gems : List (Option Gem)) (n : ℕ) → n < length (grown gems n)
unfolding grown
grown-long gems n = elim (Bool-cases (ltb n (length gems))) [
  | inl inside ↦ rw inside (ltb→lt _ _ inside)
  | inr outside ↦ rw outside (omega (arith, length-resize (suc n) gems none))
]

grown-kept :
    (gems : List (Option Gem)) (n m : ℕ) (p : Option Gem)
    → get_elem? gems m ≡ some p
    → get_elem? (grown gems n) m ≡ some p
unfolding grown
grown-kept gems n m p e = elim (Bool-cases (ltb n (length gems))) [
  | inl inside ↦ rw inside e
  | inr outside ↦
      rw outside
        (get_elem?-resize_le gems (suc n) none m p (omega (arith, ltb_false→le _ _ outside)) e)
]

-- `addGem` of a gem whose position is not negative either finds another gem there and returns
-- `false`, or puts the gem at its position and leaves every other gem where it is.
pub add_gem-lem :
    (g : Gem) (it : Item) (n : ℕ)
    → g.pos_in_item ≡ pos n
    → ((add_gem g it ≡ some none) × ((other : Gem) × (get_elem? it.gems n ≡ some (some other))))
      ⊎ ((it' : Item) × (add_gem g it ≡ some (some it'))
          × (get_elem? it'.gems n ≡ some (some g))
          × ((m : ℕ) (other : Gem)
              → get_elem? it.gems m ≡ some (some other)
              → get_elem? it'.gems m ≡ some (some other)))
unfolding add_gem place_gem grown
add_gem-lem g it n e = elim (Option-cases (get_elem? it.gems n)) [
  | inl free ↦ inr (placed, rw (add_gem, e, free) refl, here, kept (λ other h. cc))
  | inr (none, free) ↦ inr (placed, rw (add_gem, e, free) refl, here, kept (λ other h. cc))
  | inr (some other, taken) ↦ inl (rw (add_gem, e, taken) refl, (other, taken))
]
  where
    placed : Item
    placed = record it { gems = set (grown it.gems n) n (some g) }

    here : get_elem? placed.gems n ≡ some (some g)
    here = get_elem?-set_self (grown it.gems n) n (some g) (grown-long it.gems n)

    kept :
        ((other : Gem) → get_elem? it.gems n ≢ some (some other))
        → (m : ℕ) (other : Gem) → get_elem? it.gems m ≡ some (some other)
        → get_elem? placed.gems m ≡ some (some other)
    kept empty m other h =
        get_elem?-set_ne (grown it.gems n) n m (some g)
          (λ d. empty other (ap (get_elem? it.gems) d ∙ h))
        ∙ grown-kept it.gems n m (some other) h

-- The first gem of an item, put at another position than 0, leaves an empty position in front of it:
-- the next `flushToDB` uses a null pointer.
add_gem-flush :
    (g : Gem) (it : Item) (n : ℕ)
    → g.pos_in_item ≡ pos (suc n)
    → it.gems ≡ []
    → (it' : Item) × (add_gem g it ≡ some (some it')) × (flush_to_db it' ≡ none)
unfolding add_gem place_gem flush_to_db print_gems
add_gem-flush g it n e empty = (
  record it { gems = none ∷ set (resize [] (suc n) none) n (some g) },
  rw (add_gem, e, empty, outside) refl,
  refl,
)
  where
    outside : ltb (suc n) 0 ≡ false
    outside = ground arith
