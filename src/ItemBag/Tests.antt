-- ===== src/ItemBag/Tests.antt =====
-- Concrete bags.
use mathlib.Core.Path.{subst}
use mathlib.Core.Option.{some-injective, some-ne-none}
use windnet_game.ItemBag.{add_item, remove_item}
use windnet_game.ItemBag.Indexed.{IsIndexed, IsPlaced}
use windnet_game.Prelude.{ℤ}
use windnet_game.ItemBag.Adding.{add_item-IsIndexed}
use windnet_game.ItemBag.Removing.{remove_item-IsIndexed}
use windnet_game.ItemBag.Pouring.{Conserves, move_merge-Conserves}
use windnet_game.ItemBag.Moving.{move_item-IsIndexed, HasGems}
use windnet_game.Prelude.{ℕ, Option, false, List, ap, set, sym, find}
use windnet_game.Prelude.{
  ◌+ℤ◌, zero, suc, ◌≡◌, ◌≢◌, refl, pos, none, some, [], ◌∷◌, get_elem?, replicate, find, int16,
  int_key, IsShort, arith,
}
use windnet_game.Item.{ItemTemplate, Item, create_item, number, print_gems, set_index}
use windnet_game.ItemBag.{Store, get, move_item}
use windnet_game.ItemBag.Move.{move_self_fills}
use windnet_game.ItemBag.Sort.{sort_loop, no_fuel}
use windnet_game.ItemBag.SortRounds.{sort_rounds, ShortStacks}

abbrev potion : ItemTemplate
potion = record {
  item_id = pos 7;
  price = pos 10;
  equip_type = pos 0;
  item_type = pos 2;
  item_use_level = pos 1;
  profession = pos 0;
  quality = pos 1;
  stack_num = pos 99;
  strength_next_level_id = pos 0;
  strength_level = pos 0;
  corresponding_exp = pos 0;
}

-- Sixty potions, at place 1.
abbrev potions : Item
potions = record (create_item potion (pos 4) (pos 60)) { global_id = pos 500; item_index = pos 1 }

abbrev bag : Store
bag = record {
  heap = potions ∷ [];
  last_sync_time = 0;
  item_map = (pos 500, 0) ∷ [];
  items = none ∷ some 0 ∷ replicate 23 none;
  db = [];
}

move_self_fills_example :
    (s' : Store) × (it' : Item) × (move_item (pos 500) (pos 1) bag ≡ some s')
    × (get_elem? s'.heap 0 ≡ some it')
    × (number it' ≡ pos 99)
unfolding create_item print_gems get find int16
move_self_fills_example =
    move_self_fills bag (pos 500) 0 1 60 99 potions [] refl refl refl (omega arith) (omega arith)
      (omega arith) refl refl refl (omega arith) (omega arith) (omega arith)

bag-ShortStacks : ShortStacks (potions ∷ [])
unfolding create_item
bag-ShortStacks zero it e =
    subst (λ x. IsShort x.template.stack_num) (some-injective _ _ e) (omega arith, omega arith)
bag-ShortStacks (suc a) it e = cc

sort_rounds_example : sort_loop 2 (potions ∷ []) (none ∷ []) (0 ∷ []) ≢ no_fuel
sort_rounds_example =
    sort_rounds (0 ∷ []) 2 (potions ∷ []) (none ∷ []) bag-ShortStacks (omega arith)

-- The potions beside a single one that is in no bag yet.
abbrev single : Item
single = record (create_item potion (pos 4) (pos 1)) { global_id = pos 501 }

abbrev two_items : Store
two_items = record bag { heap = potions ∷ single ∷ [] }

only_null : (n i a : ℕ) → get_elem? {A = Option ℕ} (replicate n none) i ≢ some (some a)
only_null zero i a e = cc
only_null (suc n) zero a e = cc
only_null (suc n) (suc i) a e = only_null n i a e

two_items-IsIndexed : IsIndexed two_items
unfolding create_item get find int16
two_items-IsIndexed = record { low = refl; placed = at_place }
  where
    at_place : (i a : ℕ) → get_elem? two_items.items i ≡ some (some a) → IsPlaced two_items i a
    at_place zero a e = absurd (some-ne-none a (some-injective _ _ (sym e)))
    at_place (suc zero) a e =
        subst (IsPlaced two_items 1) (some-injective _ _ (some-injective _ _ e))
          (record { item = potions; there = refl; at = refl; mapped = refl })
    at_place (suc (suc i)) a e = absurd (only_null 23 i a e)

add_item-IsIndexed_example :
    (s' : Store) × (i : ℕ) × (add_item 1 two_items ≡ some s')
    × IsIndexed s'
    × (get_elem? s'.items i ≡ some (some 1))
    × ((b : ℕ) → get_elem? two_items.items i ≢ some (some b))
    × (get s' (pos 501) ≡ some 1)
    × (get_elem? s'.heap 1 ≡ some (set_index (pos i) single))
    × ((j b : ℕ)
        → get_elem? two_items.items j ≡ some (some b)
        → get_elem? s'.items j ≡ some (some b))
    × ((b : ℕ) → 1 ≢ b → get_elem? s'.heap b ≡ get_elem? two_items.heap b)
    × ((id : ℤ) (b : ℕ) → get two_items id ≡ some b → get s' id ≡ some b)
unfolding create_item get find
add_item-IsIndexed_example =
    add_item-IsIndexed two_items 1 single two_items-IsIndexed refl elsewhere refl (omega arith)
  where
    elsewhere : (i : ℕ) → get_elem? two_items.items i ≢ some (some 1)
    elsewhere zero e = cc
    elsewhere (suc zero) e =
        absurd (let no : 0 ≡ 1 = some-injective _ _ (some-injective _ _ e) in omega arith)
    elsewhere (suc (suc i)) e = only_null 23 i 1 e

remove_item-IsIndexed_example :
    (s' : Store) × (remove_item 0 false two_items ≡ some s')
    × IsIndexed s'
    × (s'.items ≡ set two_items.items 1 none)
    × (s'.heap ≡ two_items.heap)
    × (get s' (pos 500) ≡ none)
unfolding create_item
remove_item-IsIndexed_example =
    remove_item-IsIndexed two_items 0 1 potions two_items-IsIndexed refl refl (omega arith)

two_items-HasGems : HasGems two_items
unfolding create_item print_gems
two_items-HasGems zero it e =
    subst (λ x. (text : List ℕ) × (print_gems x.gems ≡ some text)) (some-injective _ _ e) ([], refl)
two_items-HasGems (suc zero) it e =
    subst (λ x. (text : List ℕ) × (print_gems x.gems ≡ some text)) (some-injective _ _ e) ([], refl)
two_items-HasGems (suc (suc a)) it e = cc

move_item-IsIndexed_example :
    (s' : Store) × (move_item (pos 500) (pos 3) two_items ≡ some s') × IsIndexed s'
unfolding get find
move_item-IsIndexed_example =
    move_item-IsIndexed two_items two_items-IsIndexed (omega arith) two_items-HasGems (pos 500)
      (pos 3) (λ a e. (1, ap some e))

-- Both are in the bag.
abbrev both_inside : Store
both_inside = record {
  heap = potions ∷ record single { item_index = pos 2 } ∷ [];
  last_sync_time = 0;
  item_map = (pos 500, 0) ∷ (pos 501, 1) ∷ [];
  items = none ∷ some 0 ∷ some 1 ∷ replicate 22 none;
  db = [];
}

both_inside-IsIndexed : IsIndexed both_inside
unfolding create_item get find int16
both_inside-IsIndexed = record { low = refl; placed = at_place }
  where
    at_place : (i a : ℕ) → get_elem? both_inside.items i ≡ some (some a) → IsPlaced both_inside i a
    at_place zero a e = absurd (some-ne-none a (some-injective _ _ (sym e)))
    at_place (suc zero) a e =
        subst (IsPlaced both_inside 1) (some-injective _ _ (some-injective _ _ e))
          (record { item = potions; there = refl; at = refl; mapped = refl })
    at_place (suc (suc zero)) a e =
        subst (IsPlaced both_inside 2) (some-injective _ _ (some-injective _ _ e)) (record {
          item = record single { item_index = pos 2 };
          there = refl;
          at = refl;
          mapped = refl;
        })
    at_place (suc (suc (suc i))) a e = absurd (only_null 22 i a e)

move_merge-Conserves_example :
    Conserves both_inside 0 1 potions (record single { item_index = pos 2 })
unfolding create_item print_gems int16 ◌+ℤ◌
move_merge-Conserves_example =
    move_merge-Conserves both_inside 0 1 1 potions (record single { item_index = pos 2 }) [] []
      both_inside-IsIndexed refl refl refl refl refl (omega arith) (λ e. absurd (omega arith))
      (omega arith) (omega arith) (omega arith) (omega arith, omega arith)
      (omega arith, omega arith)
