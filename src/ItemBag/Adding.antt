-- ===== src/ItemBag/Adding.antt =====
-- ItemBag::addItem and the bag's invariant.
use mathlib.Core.Option.{some-injective}
use mathlib.Core.Path.{subst}
use windnet_game.Prelude.{
  ℕ, suc, ◌+◌, ◌^◌, ◌≤◌, ◌<◌, ◌≡◌, ◌≢◌, refl, sym, ap, ◌∙◌, inl, inr, ℤ, pos, Option, none, some,
  List, [], ◌∷◌, length, get_elem?, get_elem?-set_self, get_elem?-set_ne, get_elem?-set-some,
  length-resize, length-drop, lt-length, set, resize, drop, put, int_key, ltb, if◌then◌else◌, arith,
  Bool-cases, ltb→lt, ltb_false→le,
}
use windnet_game.Prelude.Places.{
  get_elem?-set, get_elem?-resize, get_elem?-resize_le, get_elem?-drop_1,
}
use windnet_game.Item.{Item, set_index}
use windnet_game.ItemBag.{Store, get, first_empty, add_item}
use windnet_game.ItemBag.Numbers.{index-set_index}
use windnet_game.ItemBag.Indexed.{IsPlaced, IsIndexed, find-put_self, find-put_other}

first_empty-free :
    (items : List (Option ℕ)) (b : ℕ) → get_elem? items (first_empty items) ≢ some (some b)
unfolding first_empty
first_empty-free [] b e = cc
first_empty-free (none ∷ items) b e = cc
first_empty-free (some a ∷ items) b e = first_empty-free items b e

first_empty-le : (items : List (Option ℕ)) → first_empty items ≤ length items
unfolding first_empty
first_empty-le [] = omega arith
first_empty-le (none ∷ items) = omega arith
first_empty-le (some a ∷ items) = omega (arith, first_empty-le items)

-- The vector of `add_item` before the write, and the place that is written.
module _ (items : List (Option ℕ)) (low : get_elem? items 0 ≡ some none) where
  place : ℕ
  place = suc (first_empty (drop 1 items))

  room : List (Option ℕ)
  room = if ltb place (length items) then items else resize items (suc place) none

  place-le : place ≤ length items
  unfolding place
  place-le =
      omega (arith, first_empty-le (drop 1 items), length-drop 1 items, lt-length items 0 none low)

  place-free : (b : ℕ) → get_elem? items place ≢ some (some b)
  unfolding place
  place-free b e =
      first_empty-free (drop 1 items) b (get_elem?-drop_1 items (first_empty (drop 1 items)) ∙ e)

  place-room : place < length room
  unfolding room
  place-room = elim (Bool-cases (ltb place (length items))) [
    | inl inside ↦ rw inside (ltb→lt _ _ inside)
    | inr outside ↦ rw outside (omega (arith, length-resize (suc place) items none))
  ]

  room-old : (i b : ℕ) → get_elem? room i ≡ some (some b) → get_elem? items i ≡ some (some b)
  unfolding room
  room-old i b e = elim (Bool-cases (ltb place (length items))) [
    | inl inside ↦ rw inside at e
    | inr outside ↦ elim (get_elem?-resize items (suc place) none i (some b) (rw outside at e)) [
      | inl k ↦ k
      | inr k ↦ cc
    ]
  ]

  room-kept : (i : ℕ) (w : Option ℕ) → get_elem? items i ≡ some w → get_elem? room i ≡ some w
  unfolding room
  room-kept i w e = elim (Bool-cases (ltb place (length items))) [
    | inl inside ↦ rw inside e
    | inr outside ↦
        rw outside (
          get_elem?-resize_le items (suc place) none i w (omega (arith, ltb_false→le _ _ outside))
            e)
  ]

  room-low : get_elem? room 0 ≡ some none
  room-low = room-kept 0 none low

-- In an indexed bag, `addItem` of an item that is not in the vector, whose id the map does not
-- know, puts it at a place that was empty, makes the map find it, and keeps the bag indexed. Every
-- other item stays at its place and is left as it was, and what the map found it still finds. (The
-- vector's size is still a `short` afterwards.)
pub add_item-IsIndexed :
    (s : Store) (a : ℕ) (it : Item)
    → IsIndexed s
    → get_elem? s.heap a ≡ some it
    → ((i : ℕ) → get_elem? s.items i ≢ some (some a))
    → get s it.global_id ≡ none
    → length s.items + 1 < 2 ^ 15
    → (s' : Store) × (i : ℕ) × (add_item a s ≡ some s')
      × IsIndexed s'
      × (get_elem? s'.items i ≡ some (some a))
      × ((b : ℕ) → get_elem? s.items i ≢ some (some b))
      × (get s' it.global_id ≡ some a)
      × (get_elem? s'.heap a ≡ some (set_index (pos i) it))
      × ((j b : ℕ) → get_elem? s.items j ≡ some (some b) → get_elem? s'.items j ≡ some (some b))
      × ((b : ℕ) → a ≢ b → get_elem? s'.heap b ≡ get_elem? s.heap b)
      × ((id : ℤ) (b : ℕ) → get s id ≡ some b → get s' id ≡ some b)
unfolding add_item place room get
add_item-IsIndexed s a it v there out unknown small = (
  s',
  p,
  rw (add_item, there) refl,
  record {
    low = get_elem?-set_ne items p 0 (some a) (λ e. absurd (omega arith)) ∙ room-low s.items v.low;
    placed = λ i b e. elim (get_elem?-set items p (some a) i (some b) e) [
      | inl (here, same) ↦
          subst (λ j. IsPlaced s' j b) (sym here)
            (subst (λ c. IsPlaced s' p c) (sym (some-injective _ _ same)) new)
      | inr (_, old) ↦ kept i b (room-old s.items v.low i b old)
    ];
  },
  get_elem?-set_self items p (some a) (place-room s.items v.low),
  place-free s.items v.low,
  find-put_self s.item_map it.global_id a,
  get_elem?-set-some s.heap a it (set_index (pos p) it) there,
  λ j b e.
      get_elem?-set_ne items p j (some a)
        (λ same. place-free s.items v.low b (ap (get_elem? s.items) same ∙ e))
      ∙ room-kept s.items v.low j (some b) e,
  λ b ne. get_elem?-set_ne s.heap a b (set_index (pos p) it) ne,
  λ id b e. find-put_other s.item_map it.global_id a id b unknown e,
)
  where
    p : ℕ
    p = place s.items v.low

    items : List (Option ℕ)
    items = room s.items v.low

    s' : Store
    s' = record s {
      heap = set s.heap a (set_index (pos p) it);
      items = set items p (some a);
      item_map = put it.global_id a s.item_map;
    }

    new : IsPlaced s' p a
    new = record {
      item = set_index (pos p) it;
      there = get_elem?-set-some s.heap a it (set_index (pos p) it) there;
      at = index-set_index it (pos p) (omega (arith, place-le s.items v.low));
      mapped = find-put_self s.item_map it.global_id a;
    }

    kept : (i b : ℕ) → get_elem? s.items i ≡ some (some b) → IsPlaced s' i b
    kept i b e =
        let old = v.placed i b e in
        record {
          item = old.item;
          there =
              get_elem?-set_ne s.heap a b (set_index (pos p) it)
                (λ same. out i (e ∙ ap (λ c. some (some c)) (sym same)))
              ∙ old.there;
          at = old.at;
          mapped = find-put_other s.item_map it.global_id a old.item.global_id b unknown old.mapped;
        }
