-- ===== src/ItemBag/Move.antt =====
-- ItemBag::moveItem where the target is the item's own place.
use mathlib.Core.List.{List, ◌∷◌}
use windnet_game.Prelude.{
  ℕ, ◌+◌, ◌^◌, ◌≤◌, ◌<◌, ◌≡◌, refl, ◌∙◌, ℤ, pos, ◌+ℤ◌, +ℤ_parts, ◌-ℤ◌, ◌==ℤ◌, ltb_ℤ, leb_ℤ, ==ℤ_iff,
  int16, int16-eq, some, length, get_elem?, get_elem?-set-some, set, int_key, arith, true, false,
  ◌||◌,
}
use windnet_game.Prelude.Fault.{◌>>=◌}
use windnet_game.Item.{Item, number, set_number, add_num, print_gems, flush_to_db, update_of}
use windnet_game.ItemBag.{Store, get, move_item, move_onto, move_merge, flush, modify}
use windnet_game.ItemBag.Numbers.{number-set_number}

flush_to_db-some :
    (it : Item) (text : List ℕ)
    → print_gems it.gems ≡ some text
    → (number it ==ℤ pos 0) ≡ false
    → flush_to_db it ≡ some (it, update_of it text)
unfolding flush_to_db
flush_to_db-some it text printed some_left = rw (flush_to_db, printed) (rw some_left refl)

-- Steps at an address where an item is known to stand.
module _ (s : Store) (a : ℕ) (it : Item) (there : get_elem? s.heap a ≡ some it) where
  pub modify_at :
      (f : Item → Item)
      → (s' : Store) × (modify a f s ≡ some s')
        × (get_elem? s'.heap a ≡ some (f it))
        × (s'.items ≡ s.items)
        × (s'.item_map ≡ s.item_map)
  unfolding modify
  modify_at f = (
    record s { heap = set s.heap a (f it) },
    rw (modify, there),
    get_elem?-set-some s.heap a it (f it) there,
    refl,
    refl,
  )

  pub flush_at :
      (text : List ℕ)
      → print_gems it.gems ≡ some text
      → (number it ==ℤ pos 0) ≡ false
      → (s' : Store) × (flush a s ≡ some s')
        × (get_elem? s'.heap a ≡ some it)
        × (s'.items ≡ s.items)
        × (s'.item_map ≡ s.item_map)
  unfolding flush
  flush_at text printed some_left = (
    record s { heap = set s.heap a it; db = update_of it text ∷ s.db },
    rw (flush, there, ◌>>=◌, flush_to_db-some it text printed some_left),
    get_elem?-set-some s.heap a it it there,
    refl,
    refl,
  )

merge_self :
    (s : Store) (a : ℕ) (it : Item) (text : List ℕ) (n m : ℕ)
    → get_elem? s.heap a ≡ some it
    → print_gems it.gems ≡ some text
    → number it ≡ pos n
    → it.template.stack_num ≡ pos m
    → m < 2 ^ 15
    → m < n + n
    → n ≤ m
    → (s' : Store) × (it' : Item) × (move_merge a a it it s ≡ some s')
      × (get_elem? s'.heap a ≡ some it')
      × (number it' ≡ pos m)
unfolding move_merge add_num
merge_self s a it text n m there printed num stack small twice below =
    let stack_num = it.template.stack_num in
    let poured = add_num (number it -ℤ stack_num) it in
    let full : number (set_number stack_num poured) ≡ pos m =
      number-set_number poured stack_num (rw stack (omega arith)) ∙ stack in
    let left : (number (set_number stack_num poured) ==ℤ pos 0) ≡ false = rw full (ground arith) in
    let (s₁, e₁, h₁, _, _) = modify_at s a it there (add_num (number it -ℤ stack_num)) in
    let (s₂, e₂, h₂, _, _) = modify_at s₁ a poured h₁ (set_number stack_num) in
    let (s₃, e₃, h₃, _, _) = flush_at s₂ a (set_number stack_num poured) h₂ text printed left in
    let (s₄, e₄, h₄, _, _) = flush_at s₃ a (set_number stack_num poured) h₃ text printed left in
    (s₄, set_number stack_num poured, rw (test, e₁, e₂, e₃) e₄, h₄, full)
  where
    test : leb_ℤ (number it +ℤ number it) it.template.stack_num ≡ false
    test = rw (num, stack) (ground (arith, +ℤ_parts (pos n) (pos n)))

-- An item in a bag whose size is a `short`, found by its id, with an empty position at no place
-- among its gems, of which there are at most as many as fit a stack but more than half of that, is
-- poured onto itself when it is moved to its own place: afterwards its stack is full.
pub move_self_fills :
    (s : Store) (id : ℤ) (a i n m : ℕ) (it : Item) (text : List ℕ)
    → get s id ≡ some a
    → get_elem? s.heap a ≡ some it
    → get_elem? s.items i ≡ some (some a)
    → 1 ≤ i
    → length s.items < 2 ^ 15
    → i < length s.items
    → print_gems it.gems ≡ some text
    → number it ≡ pos n
    → it.template.stack_num ≡ pos m
    → m < 2 ^ 15
    → m < n + n
    → n ≤ m
    → (s' : Store) × (it' : Item) × (move_item id (pos i) s ≡ some s')
      × (get_elem? s'.heap a ≡ some it')
      × (number it' ≡ pos m)
unfolding move_item move_onto
move_self_fills s id a i n m it text found there placed low size inside printed num stack small
      twice below =
    let (s', it', e, h, full) =
      merge_self s a it text n m there printed num stack small twice below in
    (
      s',
      it',
      rw (bounds, found, there, placed, ◌>>=◌, move_onto, there, ◌>>=◌, own, stackable) e,
      h,
      full,
    )
  where
    bounds : ltb_ℤ (pos i) (pos 1) || leb_ℤ (int16 (pos (length s.items))) (pos i) ≡ false
    bounds = rw (int16-eq (pos (length s.items)) (omega arith)) (ground arith)

    own : (it.item_id ==ℤ it.item_id) ≡ true
    own = (==ℤ_iff it.item_id it.item_id).1 refl

    stackable : (it.template.stack_num ==ℤ pos 0) ≡ false
    stackable = rw stack (ground arith)
