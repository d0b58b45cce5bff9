-- ===== src/ItemBag/Counting.antt =====
-- How single steps change the numbers of items.
use mathlib.Core.Option.{some-injective}
use windnet_game.Prelude.{
  ℕ, ◌≡◌, ◌≢◌, refl, sym, ap, ◌∙◌, inl, inr, pos, ◌==ℤ◌, some, List, ◌∷◌, get_elem?,
  get_elem?-set_ne, get_elem?-set-some, set, if◌then◌else◌, arith, Bool-cases, ==_iff, ◌==◌,
}
use windnet_game.Item.{
  Item, number, set_state, print_gems, flush_to_db, update_of, item_state_deleted,
}
use windnet_game.ItemBag.{Store, modify, flush}

module _ (s s' : Store) (a : ℕ) (f : Item → Item) (done : modify a f s ≡ some s') where
  modified :
      (it : Item) → get_elem? s.heap a ≡ some it → s' ≡ record s { heap = set s.heap a (f it) }
  unfolding modify
  modified it there = some-injective _ _ (sym done ∙ rw (modify, there) refl)

  pub modify_at : (it : Item) → get_elem? s.heap a ≡ some it → get_elem? s'.heap a ≡ some (f it)
  modify_at it there =
      ap (λ t. get_elem? t.heap a) (modified it there) ∙ get_elem?-set-some s.heap a it (f it) there

  pub modify_off :
      (b : ℕ) (it other : Item)
      → a ≢ b
      → get_elem? s.heap a ≡ some it
      → get_elem? s.heap b ≡ some other
      → get_elem? s'.heap b ≡ some other
  modify_off b it other apart there e =
      ap (λ t. get_elem? t.heap b) (modified it there)
      ∙ get_elem?-set_ne s.heap a b (f it) apart
      ∙ e

flushed : Item → Item
flushed it = if number it ==ℤ pos 0 then set_state item_state_deleted it else it

number-flushed : (it : Item) → number (flushed it) ≡ number it
unfolding flushed
number-flushed it = elim (Bool-cases (number it ==ℤ pos 0)) [
  | inl e ↦ rw e refl
  | inr e ↦ rw e refl
]

gems-flushed : (it : Item) → (flushed it).gems ≡ it.gems
unfolding flushed
gems-flushed it = elim (Bool-cases (number it ==ℤ pos 0)) [ inl e ↦ rw e refl | inr e ↦ rw e refl ]

-- Writing an item to the database leaves every number and all gems as they are.
pub flush-number :
    (s s' : Store) (a : ℕ) (it : Item) (text : List ℕ)
    → get_elem? s.heap a ≡ some it
    → print_gems it.gems ≡ some text
    → flush a s ≡ some s'
    → (b : ℕ) (other : Item) → get_elem? s.heap b ≡ some other
    → (it' : Item) × (get_elem? s'.heap b ≡ some it')
      × (number it' ≡ number other)
      × (it'.gems ≡ other.gems)
unfolding flush flush_to_db flushed
flush-number s s' a it text there printed done b other e =
    let heap : s'.heap ≡ set s.heap a (flushed it) =
      ap (λ t. t.heap) (some-injective _ _ (sym done ∙ steps)) in
    elim (Bool-cases (a == b)) [
      | inl same ↦
          let at : a ≡ b = (==_iff a b).0 same in
          let one : it ≡ other = some-injective _ _ (sym there ∙ ap (get_elem? s.heap) at ∙ e) in
          (
            flushed it,
            ap (λ h. get_elem? h b) heap
                ∙ ap (get_elem? (set s.heap a (flushed it))) (sym at)
                ∙ get_elem?-set-some s.heap a it (flushed it) there,
            number-flushed it ∙ ap number one,
            gems-flushed it ∙ ap (λ x. x.gems) one,
          )
      | inr differ ↦ (
        other,
        ap (λ h. get_elem? h b) heap
            ∙ get_elem?-set_ne s.heap a b (flushed it) (λ at. ground arith)
            ∙ e,
        refl,
        refl,
      )
    ]
  where
    steps :
        flush a s
        ≡ some
            (record s { heap = set s.heap a (flushed it); db = update_of (flushed it) text ∷ s.db })
    steps = rw (flush, there, flush_to_db, printed) refl
