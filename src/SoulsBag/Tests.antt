-- ===== src/SoulsBag/Tests.antt =====
-- Concrete souls.
use windnet_game.Prelude.{
  ℕ, ◌≤◌, ◌≡◌, ◌≢◌, ◌⊎◌, refl, pos, true, false, none, some, [], ◌∷◌, get_elem?, replicate, int16,
  arith,
}
use windnet_game.Item.{ItemTemplate}
use windnet_game.SoulsBag.{
  SoulItem, SoulStore, create_soul, soul_at, next_hunt_soul_index, store_soul_item,
}
use windnet_game.SoulsBag.FreeIndex.{Alive, Unused, next_hunt_soul_index-Unused}
use windnet_game.SoulsBag.Storing.{IsStored, store_soul_item-lem}

abbrev spirit : ItemTemplate
spirit = record {
  item_id = pos 20001;
  price = pos 10;
  equip_type = pos 0;
  item_type = pos 10;
  item_use_level = pos 1;
  profession = pos 0;
  quality = pos 2;
  stack_num = pos 0;
  strength_next_level_id = pos 0;
  strength_level = pos 0;
  corresponding_exp = pos 0;
}

abbrev first_soul : SoulItem
first_soul = record (create_soul spirit) { id = pos 9; soul_id = pos 20001 }

-- The souls at index 0 and 2; index 1 is free.
abbrev two_souls : SoulStore
two_souls = record {
  souls = some first_soul ∷ some (record first_soul { id = pos 11; place = pos 2 }) ∷ [];
  hunted = (pos 9, 0) ∷ (pos 11, 1) ∷ [];
  bag = [];
  vect = replicate 48 none;
  equipped = [];
}

two_souls-Alive : Alive two_souls.souls two_souls.hunted
unfolding soul_at create_soul int16
two_souls-Alive = (
  (first_soul, 0, refl, refl),
  ((record first_soul { id = pos 11; place = pos 2 }, 2, refl, refl), tt),
)

next_hunt_soul_index-Unused_example :
    (n : ℕ) × (next_hunt_soul_index two_souls ≡ some n)
    × (n ≤ 2)
    × Unused two_souls.souls two_souls.hunted n
next_hunt_soul_index-Unused_example =
    next_hunt_soul_index-Unused two_souls two_souls-Alive (omega arith)

store_soul_item-lem_example :
    ((store_soul_item 0 two_souls ≡ some (false, two_souls))
      × ((i : ℕ) → get_elem? two_souls.vect i ≢ some none))
    ⊎ ((i : ℕ) × (s' : SoulStore) × (store_soul_item 0 two_souls ≡ some (true, s'))
        × IsStored 0 i first_soul two_souls s')
unfolding soul_at
store_soul_item-lem_example = store_soul_item-lem two_souls 0 first_soul refl (omega arith)
