-- ===== src/Ring/Tests.antt =====
-- The ring queue on concrete sequences of calls.
use windnet_game.Prelude.{
  ℕ, suc, ◌≡◌, ap, none, some, List, [], ◌∷◌, ◌++◌, map, length, length-replicate, replicate, arith,
}
use windnet_game.Ring.{init, pushes, pops, run}
use windnet_game.Ring.Fifo.{run_fifo, run_refines}
use windnet_game.Ring.Stale.{run_repeats}

run_refines_example :
    run init (pops ∷ pushes 7 ∷ pushes 8 ∷ pops ∷ pops ∷ pops ∷ [])
    ≡ none ∷ some 7 ∷ some 8 ∷ none ∷ []
unfolding run_fifo
run_refines_example =
    run_refines (pops ∷ pushes 7 ∷ pushes 8 ∷ pops ∷ pops ∷ pops ∷ []) (omega arith)

abbrev fives : List ℕ
fives = replicate 8095 5

run_repeats_example :
    run init (map pushes (7 ∷ fives) ++ (replicate (length (7 ∷ fives)) pops ++ pops ∷ []))
    ≡ map some (7 ∷ fives) ++ some 7 ∷ []
run_repeats_example = run_repeats 7 fives (ap suc (length-replicate {0} {A = ℕ} 8095 5))
