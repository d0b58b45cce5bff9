-- ===== src/Item/Tests.antt =====
-- The gems of concrete items.
use windnet_game.Prelude.{ℕ, ◌≡◌, refl, ℤ, pos, Option, none, some, List, [], ◌∷◌, length, arith}
use windnet_game.Item.{
  ItemTemplate, Item, Gem, create_item, print_gems, print_int, drop_last, c_str,
}
use windnet_game.Item.{add_gem}
use windnet_game.Item.Adding.{add_gem-lem}
use windnet_game.Prelude.{ℕ, ◌⊎◌, get_elem?}
use windnet_game.Item.Gems.{load_gems, gems_lost}

abbrev ruby : Gem
ruby = record { id = pos 1; gem_id = pos 70; pos_in_item = pos 0; exp = pos 5 }

abbrev ruby_text : List ℕ
ruby_text = b'1' ∷ b',' ∷ b'7' ∷ b'0' ∷ b',' ∷ 0 ∷ b',' ∷ b'5' ∷ []

-- A reader that takes every text for its length.
abbrev by_length : List ℕ → Option ℤ
by_length text = some (pos (length text))

gems_lost_example : load_gems by_length (c_str (drop_last ruby_text)) ≡ some []
unfolding print_gems print_int
gems_lost_example =
    gems_lost by_length (some ruby ∷ []) ruby_text (((λ e. absurd (omega arith)), tt), tt) refl

abbrev sword : ItemTemplate
sword = record {
  item_id = pos 7;
  price = pos 10;
  equip_type = pos 1;
  item_type = pos 1;
  item_use_level = pos 1;
  profession = pos 0;
  quality = pos 1;
  stack_num = pos 0;
  strength_next_level_id = pos 0;
  strength_level = pos 0;
  corresponding_exp = pos 0;
}

abbrev gapped : Item
gapped = record (create_item sword (pos 1) (pos 1)) { gems = none ∷ some ruby ∷ [] }

abbrev plain : Item
plain = create_item sword (pos 1) (pos 1)

add_gem-lem_example :
    ((add_gem ruby gapped ≡ some none)
      × ((other : Gem) × (get_elem? gapped.gems 0 ≡ some (some other))))
    ⊎ ((it' : Item) × (add_gem ruby gapped ≡ some (some it'))
        × (get_elem? it'.gems 0 ≡ some (some ruby))
        × ((m : ℕ) (other : Gem)
            → get_elem? gapped.gems m ≡ some (some other)
            → get_elem? it'.gems m ≡ some (some other)))
add_gem-lem_example = add_gem-lem ruby gapped 0 refl
