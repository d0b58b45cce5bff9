-- ===== src/ItemServlet/Buying.antt =====
-- item_servlet.cpp: doBuyItem.
use windnet_game.Prelude.{
  ℕ, ◌+◌, ◌^◌, ◌<◌, ◌≡◌, ◌≢◌, ◌⊎◌, inl, inr, refl, sym, ap, ◌∙◌, ℤ, pos, Bool, arith, ◌-ℤ◌, ◌*ℤ◌,
  int16, int16-eq, int16-IsShort, int32, ltb_ℤ, true, false, none, some, List, [], ◌∷◌, ◌++◌,
  length, lt-length, get_elem?, Bool-cases,
}
use windnet_game.Prelude.Places.{get_elem?-append_left, get_elem?-append_here}
use windnet_game.Prelude.Outcome.{step, ok, need}
use windnet_game.Item.{
  Item, ItemTemplate, Statement, create_item, flush_new_to_db, set_index, number,
}
use windnet_game.ItemBag.{Store, get, deref, add_item}
use windnet_game.ItemBag.Indexed.{IsIndexed}
use windnet_game.ItemBag.Adding.{add_item-IsIndexed}
use windnet_game.Tables.{get_template}
use windnet_game.Role.{set_money, flush_role}
use windnet_game.Session.{
  Player, Env, with_bag-ok, reply, error_body, buy_item_error_no_enough_money,
}
use windnet_game.Bson.{Object, get_int_val}
use windnet_game.ItemServlet.{do_buy_item, bought}

-- The bag with a new object in the heap that the vector does not have yet.
allocated-IsIndexed :
    (s : Store) (x : Item) (db : List Statement)
    → IsIndexed s
    → IsIndexed (record s { heap = s.heap ++ x ∷ []; db = db })
unfolding get
allocated-IsIndexed s x db v = record {
  low = v.low;
  placed = λ i a e.
      let old = v.placed i a e in
      record {
        item = old.item;
        there = get_elem?-append_left s.heap (x ∷ []) a old.item old.there;
        at = old.at;
        mapped = old.mapped;
      };
}

fresh_address :
    (s : Store) → IsIndexed s → (i : ℕ) → get_elem? s.items i ≢ some (some (length s.heap))
fresh_address s v i e =
    let old = v.placed i (length s.heap) e in
    absurd (omega (arith, lt-length s.heap (length s.heap) old.item old.there))

-- The item that a purchase makes, before it has a place.
abbrev pub new_item : Env → ItemTemplate → ℤ → ℤ → Item
new_item env it role_id count =
    (flush_new_to_db env.executed env.auto_id (create_item it role_id (int16 count))).0

short_once : (z : ℤ) → int16 (int16 z) ≡ int16 z
short_once z = int16-eq (int16 z) (int16-IsShort z)

count_once : (z : ℤ) → int16 (int16 (int16 z)) ≡ int16 z
count_once z = ap int16 (short_once z) ∙ short_once z

-- The state after a purchase for `money_need`.
pub record HasBought (env : Env) (it : ItemTemplate) (count money_need : ℤ) (p p' : Player)
    : Type 0 where
  pub new_money : p'.role.money ≡ int32 (p.role.money -ℤ money_need)
  pub same_role : set_money p.role.money p'.role ≡ p.role
  pub indexed : IsIndexed p'.bag
  pub address : ℕ
  pub place : ℕ
  pub was_free : (b : ℕ) → get_elem? p.bag.items place ≢ some (some b)
  pub in_place : get_elem? p'.bag.items place ≡ some (some address)
  pub item : Item
  pub there : get_elem? p'.bag.heap address ≡ some item
  pub of_template : item.template ≡ it
  pub of_item_id : item.item_id ≡ it.item_id
  pub of_role : item.role_id ≡ p.role_info_id
  pub as_many : number item ≡ int16 count
  pub without_gems : item.gems ≡ []
  pub by_id : get p'.bag item.global_id ≡ some address
  pub others :
      (j b : ℕ)
      → get_elem? p.bag.items j ≡ some (some b)
      → (get_elem? p'.bag.items j ≡ some (some b))
        × (get_elem? p'.bag.heap b ≡ get_elem? p.bag.heap b)

-- What a new item is, also behind the insertion into the database.
made :
    (executed : Bool) (auto_id : ℤ) (it : ItemTemplate) (role_id count : ℤ)
    → let item = (flush_new_to_db executed auto_id (create_item it role_id (int16 count))).0 in
      (item.template ≡ it)
      × (item.item_id ≡ it.item_id)
      × (item.role_id ≡ role_id)
      × (number item ≡ int16 count)
      × (item.gems ≡ [])
unfolding flush_new_to_db create_item
made true auto_id it role_id count = (refl, refl, refl, count_once count, refl)
made false auto_id it role_id count = (refl, refl, refl, count_once count, refl)

-- An item of the vector, in the longer heap.
kept_object :
    (s : Store) (x : Item)
    → IsIndexed s
    → (j b : ℕ) → get_elem? s.items j ≡ some (some b)
    → get_elem? (s.heap ++ x ∷ []) b ≡ get_elem? s.heap b
unfolding get
kept_object s x v j b e =
    let old = v.placed j b e in
    get_elem?-append_left s.heap (x ∷ []) b old.item old.there ∙ sym old.there

bought-HasBought :
    (env : Env) (it : ItemTemplate) (count money_need : ℤ) (p : Player)
    → IsIndexed p.bag
    → get p.bag (new_item env it p.role_info_id count).global_id ≡ none
    → length p.bag.items + 1 < 2 ^ 15
    → (p' : Player) × (bought env it count money_need p ≡ ok (true, p'))
      × HasBought env it count money_need p p'
unfolding bought get
bought-HasBought env it count money_need p v unknown small =
    let item = new_item env it p.role_info_id count in
    let (of_template, of_item_id, of_role, as_many, without_gems) =
      made env.executed env.auto_id it p.role_info_id count in
    let statement =
      (flush_new_to_db env.executed env.auto_id (create_item it p.role_info_id (int16 count))).1 in
    let a = length p.bag.heap in
    let role = set_money (int32 (p.role.money -ℤ money_need)) p.role in
    let s : Store = record (p.bag) {
      heap = p.bag.heap ++ item ∷ [];
      db = statement ∷ flush_role role ∷ p.bag.db;
    } in
    let (s', i, e, v', here, free, found, there, stay, heap_stays, still) =
      add_item-IsIndexed s a item (allocated-IsIndexed p.bag item s.db v)
        (get_elem?-append_here p.bag.heap [] item) (fresh_address p.bag v) unknown small in
    let placed = v'.placed i a here in
    let paid : Player = record p { role = role; bag = s } in
    (
      _,
      step _ _ _ _ (with_bag-ok (add_item a) paid s' e)
          (step (need (deref s' a)) _ _ _ (ap need placed.there) refl),
      record {
        new_money = refl;
        same_role = refl;
        indexed = v';
        address = a;
        place = i;
        was_free = free;
        in_place = here;
        item = set_index (pos i) item;
        there = there;
        of_template = of_template;
        of_item_id = of_item_id;
        of_role = of_role;
        as_many = as_many;
        without_gems = without_gems;
        by_id = found;
        others = λ j b e. (
          stay j b e,
          heap_stays b (λ same. fresh_address p.bag v j (e ∙ ap (λ c. some (some c)) (sym same)))
              ∙ kept_object p.bag item v j b e,
        );
      },
    )

-- In an indexed bag whose size is a `short`, and which does not know the id that the new item will
-- have, a `doBuyItem` of an item that is sold is refused, with nothing changed but the answer, if the
-- role's money is less than the price as an `int`; otherwise it takes that price from the money and
-- leaves the rest of the role, puts a new item of the template, with the requested count as a `short`
-- and no gem, at a place that was free, where its id finds it, leaves every other item of the vector
-- at its place and as it was, and keeps the bag indexed.
pub do_buy_item-HasBought :
    (env : Env) (request : Object) (it : ItemTemplate) (item_id count : ℤ) (p : Player)
    → IsIndexed p.bag
    → get p.bag (new_item env it p.role_info_id count).global_id ≡ none
    → length p.bag.items + 1 < 2 ^ 15
    → get_int_val "Id" request ≡ ok item_id
    → get_int_val "Count" request ≡ ok count
    → get_template env.item_tables item_id ≡ some it
    → ((ltb_ℤ p.role.money (int32 (it.price *ℤ count)) ≡ true)
        × (do_buy_item env request p
            ≡ reply "BuyPropFromBodyShop" (error_body buy_item_error_no_enough_money) p))
      ⊎ ((ltb_ℤ p.role.money (int32 (it.price *ℤ count)) ≡ false)
          × (p' : Player) × (do_buy_item env request p ≡ ok (true, p'))
          × HasBought env it count (int32 (it.price *ℤ count)) p p')
unfolding do_buy_item get_template
do_buy_item-HasBought env request it item_id count p v unknown small asks counts sold =
    let money_need = int32 (it.price *ℤ count) in
    elim (Bool-cases (ltb_ℤ p.role.money money_need)) [
      | inl poor ↦ inl (
        poor,
        step (get_int_val "Id" request) _ _ _ asks
            (step (get_int_val "Count" request) _ _ _ counts (rw (sold, poor) refl)),
      )
      | inr rich ↦
          let (p', e, h) = bought-HasBought env it count money_need p v unknown small in
          inr (
            rich,
            p',
            step (get_int_val "Id" request) _ _ _ asks
                (step (get_int_val "Count" request) _ _ _ counts (rw (sold, rich) e)),
            h,
          )
    ]
