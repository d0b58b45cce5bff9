-- ===== src/Util.antt =====
-- util.cpp: `split`. A string is the list of its bytes.
pub mod Split
mod Tests
use windnet_game.Prelude.{ℕ, List, [], ◌∷◌, ◌++◌, ◌==◌, if◌then◌else◌}

-- The loop, with `val` as it stands; what is left in `val` at the end is not returned.
split_from : ℕ → List ℕ → List ℕ → List (List ℕ)
split_from split_char val [] = []
split_from split_char val (c ∷ str) =
    let here = val ∷ split_from split_char [] str in
    let on = split_from split_char (val ++ c ∷ []) str in if c == split_char then here else on

pub split : List ℕ → ℕ → List (List ℕ)
unfolding split_from
split str split_char = split_from split_char [] str
