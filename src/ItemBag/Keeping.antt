-- ===== src/ItemBag/Keeping.antt =====
-- Steps that change numbers and states of items only: the bag's invariant does not see them.
use mathlib.Core.Option.{some-injective}
use mathlib.Core.Path.{subst}
use windnet_game.Prelude.{
  ℕ, ◌≡◌, refl, sym, ap, ◌∙◌, inl, inr, ℤ, pos, ◌==ℤ◌, some, List, ◌∷◌, get_elem?, get_elem?-set_ne,
  get_elem?-set-some, set, find, int_key, if◌then◌else◌, arith, Bool-cases, ==_iff, ◌==◌,
}
use windnet_game.Item.{
  Statement, Item, index, set_number, set_state, number, add_num, print_gems, flush_to_db,
  update_of, item_state_deleted,
}
use windnet_game.ItemBag.{Store, get, modify, flush}
use windnet_game.ItemBag.Indexed.{IsIndexed}

-- Two items that differ in their number and state at most.
pub record IsAlike (it it' : Item) : Type 0 where
  pub same_index : index it' ≡ index it
  pub same_id : it'.global_id ≡ it.global_id
  pub same_gems : it'.gems ≡ it.gems

-- Two stores whose items are alike and whose vectors and maps are the same.
pub record IsKept (s s' : Store) : Type 0 where
  pub alike :
      (a : ℕ) (it : Item)
      → get_elem? s.heap a ≡ some it
      → (it' : Item) × (get_elem? s'.heap a ≡ some it') × IsAlike it it'
  pub same_items : s'.items ≡ s.items
  pub same_map : s'.item_map ≡ s.item_map

IsAlike-refl : (it : Item) → IsAlike it it
IsAlike-refl it = record { same_index = refl; same_id = refl; same_gems = refl }

pub IsKept-trans : {s t u : Store} → IsKept s t → IsKept t u → IsKept s u
IsKept-trans k l = record {
  alike = λ a it e.
      let (it', e', x) = k.alike a it e in
      let (it'', e'', y) = l.alike a it' e' in
      (
        it'',
        e'',
        record {
          same_index = y.same_index ∙ x.same_index;
          same_id = y.same_id ∙ x.same_id;
          same_gems = y.same_gems ∙ x.same_gems;
        },
      );
  same_items = l.same_items ∙ k.same_items;
  same_map = l.same_map ∙ k.same_map;
}

-- A write of an alike item.
pub write-IsKept :
    (s s' : Store) (a : ℕ) (it it' : Item)
    → get_elem? s.heap a ≡ some it
    → IsAlike it it'
    → s'.heap ≡ set s.heap a it'
    → s'.items ≡ s.items
    → s'.item_map ≡ s.item_map
    → IsKept s s'
write-IsKept s s' a it it' there like heap items item_map = record {
  alike = λ b other e. elim (Bool-cases (a == b)) [
    | inl same ↦
        let at : a ≡ b = (==_iff a b).0 same in
        let one : it ≡ other = some-injective _ _ (sym there ∙ ap (get_elem? s.heap) at ∙ e) in
        (
          it',
          ap (λ h. get_elem? h b) heap
              ∙ ap (get_elem? (set s.heap a it')) (sym at)
              ∙ get_elem?-set-some s.heap a it it' there,
          subst (λ x. IsAlike x it') one like,
        )
    | inr differs ↦ (
      other,
      ap (λ h. get_elem? h b) heap ∙ get_elem?-set_ne s.heap a b it' (λ at. ground arith) ∙ e,
      IsAlike-refl other,
    )
  ];
  same_items = items;
  same_map = item_map;
}

-- A statement to the database.
pub db-IsKept : (s : Store) (db : List Statement) → IsKept s (record s { db = db })
db-IsKept s db = record {
  alike = λ a it e. (it, e, IsAlike-refl it);
  same_items = refl;
  same_map = refl;
}

pub IsKept-IsIndexed : {s s' : Store} → IsKept s s' → IsIndexed s → IsIndexed s'
unfolding get
IsKept-IsIndexed {s} {s'} k v = record {
  low = ap (λ t. get_elem? t 0) k.same_items ∙ v.low;
  placed = λ i a e.
      let old = v.placed i a (ap (λ t. get_elem? t i) (sym k.same_items) ∙ e) in
      let (it', there, like) = k.alike a old.item old.there in
      record {
        item = it';
        there = there;
        at = like.same_index ∙ old.at;
        mapped =
            ap (λ m. find it'.global_id m) k.same_map
            ∙ ap (λ z. find z s.item_map) like.same_id
            ∙ old.mapped;
      };
}

pub modify-IsKept :
    (s : Store) (a : ℕ) (it : Item) (f : Item → Item)
    → get_elem? s.heap a ≡ some it
    → IsAlike it (f it)
    → (s' : Store) × (modify a f s ≡ some s') × IsKept s s'
unfolding modify
modify-IsKept s a it f there like = (
  record s { heap = set s.heap a (f it) },
  rw (modify, there),
  write-IsKept s _ a it (f it) there like refl refl refl,
)

-- Changing a number.
pub set_number-IsAlike : (z : ℤ) (it : Item) → IsAlike it (set_number z it)
set_number-IsAlike z it = record { same_index = refl; same_id = refl; same_gems = refl }

pub add_num-IsAlike : (z : ℤ) (it : Item) → IsAlike it (add_num z it)
unfolding add_num
add_num-IsAlike z it = record { same_index = refl; same_id = refl; same_gems = refl }

flushed : Item → Item
flushed it = if number it ==ℤ pos 0 then set_state item_state_deleted it else it

flushed-IsAlike : (it : Item) → IsAlike it (flushed it)
unfolding flushed
flushed-IsAlike it = elim (Bool-cases (number it ==ℤ pos 0)) [
  | inl e ↦ rw e (record { same_index = refl; same_id = refl; same_gems = refl })
  | inr e ↦ rw e (IsAlike-refl it)
]

pub flush-IsKept :
    (s : Store) (a : ℕ) (it : Item) (text : List ℕ)
    → get_elem? s.heap a ≡ some it
    → print_gems it.gems ≡ some text
    → (s' : Store) × (flush a s ≡ some s') × IsKept s s'
unfolding flush flush_to_db flushed
flush-IsKept s a it text there printed = (
  record s { heap = set s.heap a (flushed it); db = update_of (flushed it) text ∷ s.db },
  rw (flush, there, flush_to_db, printed),
  write-IsKept s _ a it (flushed it) there (flushed-IsAlike it) refl refl refl,
)

-- Two items are written to the database one after the other.
pub flush_two :
    (s : Store) (a b : ℕ) (x y : Item) (text text' : List ℕ)
    → get_elem? s.heap a ≡ some x
    → get_elem? s.heap b ≡ some y
    → print_gems x.gems ≡ some text
    → print_gems y.gems ≡ some text'
    → (s₁ s₂ : Store) × (flush a s ≡ some s₁) × (flush b s₁ ≡ some s₂) × IsKept s s₂
flush_two s a b x y text text' at_a at_b e f =
    let (s₁, e₁, k₁) = flush-IsKept s a x text at_a e in
    let (y', at_b', like) = k₁.alike b y at_b in
    let (s₂, e₂, k₂) = flush-IsKept s₁ b y' text' at_b' (ap print_gems like.same_gems ∙ f) in
    (s₁, s₂, e₁, e₂, IsKept-trans k₁ k₂)
