-- ===== src/Task/Tests.antt =====
-- Concrete tasks and timers.
use windnet_game.Prelude.{◌≡◌, ◌↔◌, refl, ℤ, pos, true, false, [], ◌∷◌, arith}
use windnet_game.Task.{contains, accept_error}
use windnet_game.Task.Accepting.{accept_error-none_finished}
use windnet_game.Task.Timers.{TimerItem, IsSorted, IsInserted, add_timer, add_timer-IsSorted}

accept_error-none_finished_example :
    (accept_error (pos 3 ∷ []) (pos 3 ∷ pos 4 ∷ []) ≡ false)
    ↔ ((t : ℤ) → contains t (pos 3 ∷ pos 4 ∷ []) ≡ true → contains t (pos 3 ∷ []) ≡ false)
accept_error-none_finished_example = accept_error-none_finished (pos 3 ∷ []) (pos 3 ∷ pos 4 ∷ [])

-- A task whose one prerequisite is finished is refused.
finished_is_refused : accept_error (pos 3 ∷ []) (pos 3 ∷ []) ≡ true
unfolding accept_error windnet_game.Task.task_finished contains
finished_is_refused = refl

abbrev at : ℤ → TimerItem
at t = record { expire_time = t; session_id = pos 1 }

add_timer-IsSorted_example :
    IsSorted (add_timer (at (pos 4)) (at (pos 3) ∷ at (pos 5) ∷ []))
    × IsInserted
        (at (pos 4))
        (at (pos 3) ∷ at (pos 5) ∷ [])
        (add_timer (at (pos 4)) (at (pos 3) ∷ at (pos 5) ∷ []))
add_timer-IsSorted_example =
    add_timer-IsSorted (at (pos 4)) (at (pos 3) ∷ at (pos 5) ∷ []) (omega arith, tt)
