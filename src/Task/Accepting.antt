-- ===== src/Task/Accepting.antt =====
-- task_servlet.cpp: which tasks doAcceptTask accepts.
use windnet_game.Prelude.{
  ◌≡◌, ◌≢◌, ◌⊎◌, ◌↔◌, refl, sym, ap, ◌∙◌, inl, inr, ℤ, ◌==ℤ◌, ==ℤ_iff, true, false, List, [], ◌∷◌,
  Bool-cases, arith,
}
use mathlib.Core.Bool.{true≢false}
use windnet_game.Task.{contains, task_finished, accept_error}

contains_nil : (t : ℤ) → contains t [] ≢ true
unfolding contains
contains_nil t h = true≢false (sym h)

contains_head : (t : ℤ) (ts : List ℤ) → contains t (t ∷ ts) ≡ true
unfolding contains
contains_head t ts = rw ((==ℤ_iff t t).1 refl) refl

contains_tail : (x t : ℤ) (ts : List ℤ) → contains x ts ≡ true → contains x (t ∷ ts) ≡ true
unfolding contains
contains_tail x t ts h = ground (arith, h)

contains_cases :
    (x t : ℤ) (ts : List ℤ) → contains x (t ∷ ts) ≡ true → (x ≡ t) ⊎ (contains x ts ≡ true)
unfolding contains
contains_cases x t ts h = elim (Bool-cases (x ==ℤ t)) [
  | inl same ↦ inl ((==ℤ_iff x t).0 same)
  | inr other ↦ inr (sym (rw other refl) ∙ h)
]

-- The loop of `doAcceptTask` lets a task pass if and only if none of the tasks before it is finished.
pub accept_error-none_finished :
    (finished pre : List ℤ)
    → (accept_error finished pre ≡ false)
      ↔ ((t : ℤ) → contains t pre ≡ true → contains t finished ≡ false)
unfolding accept_error task_finished
accept_error-none_finished finished [] = (λ e t h. absurd (contains_nil t h), λ h. refl)
accept_error-none_finished finished (t ∷ pre) =
    let rest = accept_error-none_finished finished pre in
    elim (Bool-cases (contains t finished)) [
      | inl done ↦ (
        λ e. absurd (true≢false (sym (rw done refl) ∙ e)),
        λ h. absurd (true≢false (sym done ∙ h t (contains_head t pre))),
      )
      | inr undone ↦ (
        λ e x h. elim (contains_cases x t pre h) [
          | inl same ↦ ap (λ y. contains y finished) same ∙ undone
          | inr later ↦ rest.0 (sym (rw undone refl) ∙ e) x later
        ],
        λ h. rw undone (rest.1 (λ x later. h x (contains_tail x t pre later))),
      )
    ]
