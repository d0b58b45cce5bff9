-- ===== src/ItemServlet/Selling.antt =====
-- item_servlet.cpp: doSellItem.
use mathlib.Core.Option.{some-injective}
use mathlib.Core.Path.{subst}
use windnet_game.Prelude.{
  ℕ, ◌^◌, ◌<◌, ◌≡◌, refl, sym, ap, ◌∙◌, ◌+ℤ◌, ◌*ℤ◌, int32, true, none, some, List, [], ◌∷◌, length,
  get_elem?, set, false,
}
use windnet_game.Prelude.Outcome.{step, ok, need}
use windnet_game.Item.{Item, number, print_gems, set_state, item_state_deleted}
use windnet_game.ItemBag.{Store, get, deref, modify, flush, remove_item}
use windnet_game.ItemBag.Indexed.{IsIndexed}
use windnet_game.ItemBag.Keeping.{
  IsAlike, IsKept-trans, IsKept-IsIndexed, modify-IsKept, db-IsKept, flush-IsKept,
}
use windnet_game.ItemBag.Removing.{remove_item-IsIndexed}
use windnet_game.Role.{add_money, not_below_0, flush_role}
use windnet_game.Session.{Player, with_bag-ok}
use windnet_game.Bson.{Object, get_int_val, body_of, int_value, bool_value, message}
use windnet_game.ItemServlet.{do_sell_item}

-- An item of the vector is marked as deleted, written to the database and removed.
pub discard :
    (s : Store) (a i : ℕ) (it : Item) (text : List ℕ)
    → IsIndexed s
    → get_elem? s.heap a ≡ some it
    → get_elem? s.items i ≡ some (some a)
    → print_gems it.gems ≡ some text
    → length s.items < 2 ^ 15
    → (s₁ s₂ s₃ : Store) × (modify a (set_state item_state_deleted) s ≡ some s₁)
      × (flush a s₁ ≡ some s₂)
      × (remove_item a false s₂ ≡ some s₃)
      × IsIndexed s₃
      × (s₃.items ≡ set s.items i none)
      × (get s₃ it.global_id ≡ none)
discard s a i it text v there here printed small =
    let deleted = set_state item_state_deleted it in
    let like : IsAlike it deleted = record {
      same_index = refl;
      same_id = refl;
      same_gems = refl;
    } in
    let (s₁, e₁, k₁) = modify-IsKept s a it (set_state item_state_deleted) there like in
    let (it₁, there₁, like₁) = k₁.alike a it there in
    let (s₂, e₂, k₂) =
      flush-IsKept s₁ a it₁ text there₁ (ap print_gems like₁.same_gems ∙ printed) in
    let k = IsKept-trans k₁ k₂ in
    let (it₂, there₂, like₂) = k.alike a it there in
    let (s₃, e₃, v₃, items₃, heap₃, gone) =
      remove_item-IsIndexed s₂ a i it₂ (IsKept-IsIndexed k v) there₂
        (ap (λ t. get_elem? t i) k.same_items ∙ here)
        (subst (λ t. length t < 2 ^ 15) (sym k.same_items) small) in
    (
      s₁,
      s₂,
      s₃,
      e₁,
      e₂,
      e₃,
      v₃,
      items₃ ∙ ap (λ t. set t i none) k.same_items,
      ap (λ z. get s₃ z) (sym like₂.same_id) ∙ gone,
    )

pub placed-mapped :
    (s : Store) (a i : ℕ) (it : Item)
    → IsIndexed s
    → get_elem? s.heap a ≡ some it
    → get_elem? s.items i ≡ some (some a)
    → get s it.global_id ≡ some a
placed-mapped s a i it v there here =
    let old = v.placed i a here in
    let same : old.item ≡ it = some-injective _ _ (sym old.there ∙ there) in
    ap (λ x. get s x.global_id) (sym same) ∙ old.mapped

-- In an indexed bag whose size is a `short`, a `doSellItem` of an item in the vector, whose gems can
-- be written, adds the price of all that the item counts to the money, empties the item's
-- place and keeps the bag indexed; asked for again, the same item is not sold a second time.
pub do_sell_item-once :
    (p : Player) (request : Object) (a i : ℕ) (it : Item) (text : List ℕ)
    → IsIndexed p.bag
    → get_elem? p.bag.heap a ≡ some it
    → get_elem? p.bag.items i ≡ some (some a)
    → print_gems it.gems ≡ some text
    → length p.bag.items < 2 ^ 15
    → get_int_val "Id" request ≡ ok it.global_id
    → (p' : Player) × (do_sell_item request p ≡ ok (true, p'))
      × (p'.role.money
          ≡ not_below_0 (int32 (p.role.money +ℤ int32 (it.template.price *ℤ number it))))
      × IsIndexed p'.bag
      × (p'.bag.items ≡ set p.bag.items i none)
      × (do_sell_item request p' ≡ ok (true, p'))
unfolding do_sell_item add_money get
do_sell_item-once p request a i it text v there here printed small asks =
    let price = int32 (it.template.price *ℤ number it) in
    let role = add_money price p.role in
    let s = record (p.bag) { db = flush_role role ∷ p.bag.db } in
    let v' : IsIndexed s = IsKept-IsIndexed (db-IsKept p.bag (flush_role role ∷ p.bag.db)) v in
    let mapped : get p.bag it.global_id ≡ some a = placed-mapped p.bag a i it v there here in
    let (s₁, s₂, s₃, e₁, e₂, e₃, v₃, items₃, gone) =
      discard s a i it text v' there here printed small in
    let paid : Player = record p { role = role; bag = s } in
    let body = body_of (("Silver", int_value role.money) ∷ ("Success", bool_value true) ∷ []) in
    (
      record p { role = role; bag = s₃; sent = message "SaleProps" body ∷ p.sent },
      step (get_int_val "Id" request) _ _ _ asks (
          rw mapped (
            step (need (deref p.bag a)) _ _ _ (ap need there) (
              step _ _ _ _ (with_bag-ok (modify a (set_state item_state_deleted)) paid s₁ e₁) (
                step _ _ _ _ (with_bag-ok (flush a) (record paid { bag = s₁ }) s₂ e₂) (
                  step _ _ _ _ (with_bag-ok (remove_item a false) (record paid { bag = s₂ }) s₃ e₃)
                    refl))))),
      refl,
      v₃,
      items₃,
      step (get_int_val "Id" request) _ _ _ asks (rw gone refl),
    )
