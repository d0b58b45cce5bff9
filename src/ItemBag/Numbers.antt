-- ===== src/ItemBag/Numbers.antt =====
-- How the numbers of items behave under the getters and setters that narrow.
use windnet_game.Prelude.{◌≡◌, ap, ◌∙◌, ℤ, ◌+ℤ◌, int16, int32, IsShort, int16-eq, int32-eq, arith}
use windnet_game.Item.{Item, number, set_number, add_num, index, set_index}

pub number-set_number : (it : Item) (z : ℤ) → IsShort z → number (set_number z it) ≡ z
number-set_number it z h = ap int16 (int16-eq z h) ∙ int16-eq z h

pub index-set_index : (it : Item) (z : ℤ) → IsShort z → index (set_index z it) ≡ z
index-set_index it z h = ap int16 (int16-eq z h) ∙ int16-eq z h

-- A sum that is a `short` is computed without loss.
pub number-add_num :
    (it : Item) (z : ℤ)
    → IsShort z
    → IsShort (number it +ℤ z)
    → number (add_num z it) ≡ number it +ℤ z
unfolding add_num
number-add_num it z h k =
    ap (λ t. int16 (int32 (number it +ℤ t))) (int16-eq z h)
    ∙ ap int16 (int32-eq (number it +ℤ z) (omega arith))
    ∙ int16-eq (number it +ℤ z) k
