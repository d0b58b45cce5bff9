-- ===== src/Util/Tests.antt =====
-- `split` on a concrete text.
use windnet_game.Prelude.{◌≡◌, [], ◌∷◌, arith}
use windnet_game.Util.{split}
use windnet_game.Util.Split.{split_lem}

split_lem_example :
    split (b'a' ∷ b'b' ∷ b',' ∷ b'c' ∷ b',' ∷ b'd' ∷ []) b','
    ≡ (b'a' ∷ b'b' ∷ []) ∷ (b'c' ∷ []) ∷ []
split_lem_example =
    split_lem b',' ((b'a' ∷ b'b' ∷ []) ∷ (b'c' ∷ []) ∷ []) (b'd' ∷ [])
      (
        ((λ e. absurd (omega arith)), ((λ e. absurd (omega arith)), tt)),
        (((λ e. absurd (omega arith)), tt), tt),
      )
      ((λ e. absurd (omega arith)), tt)
