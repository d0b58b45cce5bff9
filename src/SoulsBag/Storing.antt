-- ===== src/SoulsBag/Storing.antt =====
-- SoulsBag::storeSoulItem.
use windnet_game.Prelude.{
  ℕ, zero, suc, ◌^◌, ◌<◌, ◌≡◌, ◌≢◌, refl, ap, ◌∙◌, ◌⊎◌, inl, inr, pos, int16-eq, int16, ==ℤ_iff,
  true, false, Option, none, some, List, [], ◌∷◌, length, get_elem?, get_elem?-set_self, set, put,
  erase, find-put, find-erase, int_key, leb, Bool-cases, arith,
}
use windnet_game.ItemBag.{first_empty}
use windnet_game.SoulsBag.{
  SoulItem, SoulStore, soul_at, soul_index, set_soul_index, set_soul_type, in_bag_type,
  store_soul_item, get_soul, get_hunt_soul,
}

first_empty_null :
    (xs : List (Option ℕ))
    → leb (length xs) (first_empty xs) ≡ false
    → get_elem? xs (first_empty xs) ≡ some none
unfolding first_empty
first_empty_null [] e = absurd (ground arith)
first_empty_null (none ∷ xs) e = refl
first_empty_null (some a ∷ xs) e = first_empty_null xs (ground arith)

first_empty_full :
    (xs : List (Option ℕ))
    → leb (length xs) (first_empty xs) ≡ true
    → (i : ℕ) → get_elem? xs i ≢ some none
unfolding first_empty
first_empty_full [] e i f = cc
first_empty_full (none ∷ xs) e i f = absurd (ground arith)
first_empty_full (some a ∷ xs) e zero f = cc
first_empty_full (some a ∷ xs) e (suc i) f = first_empty_full xs (ground arith) i f

soul_at-set :
    (souls : List (Option SoulItem)) (a : ℕ) (soul new : SoulItem)
    → soul_at souls a ≡ some soul
    → soul_at (set souls a (some new)) a ≡ some new
unfolding soul_at
soul_at-set [] a soul new e = cc
soul_at-set (x ∷ souls) zero soul new e = refl
soul_at-set (x ∷ souls) (suc a) soul new e = soul_at-set souls a soul new e

-- The soul after a successful call.
pub record IsStored (a i : ℕ) (soul : SoulItem) (s s' : SoulStore) : Type 0 where
  pub was_empty : get_elem? s.vect i ≡ some none
  pub in_vect : get_elem? s'.vect i ≡ some (some a)
  pub in_bag : get_soul s' soul.id ≡ some a
  pub not_hunted : get_hunt_soul s' soul.id ≡ none
  pub stored : SoulItem
  pub there : soul_at s'.souls a ≡ some stored
  pub knows : soul_index stored ≡ pos i

-- `storeSoulItem` of a soul, with a bag whose size is a `short`, either changes nothing and returns
-- `false`, and then no place of the bag is empty, or it returns `true`, and the soul stands at a
-- place that was empty, knows it, is found in the bag by its id, and is no more among the hunted
-- ones.
pub store_soul_item-lem :
    (s : SoulStore) (a : ℕ) (soul : SoulItem)
    → soul_at s.souls a ≡ some soul
    → length s.vect < 2 ^ 15
    → ((store_soul_item a s ≡ some (false, s)) × ((i : ℕ) → get_elem? s.vect i ≢ some none))
      ⊎ ((i : ℕ) × (s' : SoulStore) × (store_soul_item a s ≡ some (true, s'))
          × IsStored a i soul s s')
unfolding store_soul_item get_soul get_hunt_soul
store_soul_item-lem s a soul there small =
    elim (Bool-cases (leb (length s.vect) (first_empty s.vect))) [
      | inl full ↦ inl (rw (store_soul_item, full) refl, first_empty_full s.vect full)
      | inr room ↦
          let idx = first_empty s.vect in
          let low : idx < length s.vect = ground arith in
          let new = set_soul_index (pos idx) (set_soul_type in_bag_type soul) in
          inr (
            idx,
            record s {
              souls = set s.souls a (some new);
              hunted = erase soul.id s.hunted;
              vect = set s.vect idx (some a);
              bag = put soul.id a s.bag;
            },
            rw (store_soul_item, room, there) refl,
            record {
              was_empty = first_empty_null s.vect room;
              in_vect = get_elem?-set_self s.vect idx (some a) low;
              in_bag = rw (find-put soul.id soul.id a s.bag, (==ℤ_iff soul.id soul.id).1 refl) refl;
              not_hunted =
                  rw (find-erase soul.id soul.id s.hunted, (==ℤ_iff soul.id soul.id).1 refl) refl;
              stored = new;
              there = soul_at-set s.souls a soul new there;
              knows =
                  ap int16 (int16-eq (pos idx) (omega (arith, low)))
                  ∙ int16-eq (pos idx) (omega (arith, low));
            },
          )
    ]
