-- ===== src/ItemServlet/Bag.antt =====
-- item_servlet.cpp: the handlers that show, move, sort, wear and throw away items.
use windnet_game.Prelude.{int16, Bool, true, false, none, some, List, [], ◌∷◌, ℕ}
use windnet_game.Prelude.Outcome.{Outcome, ok, need, ◌>>=◌}
use windnet_game.Item.{Item, number, index, set_state, item_state_deleted}
use windnet_game.ItemBag.{
  Store, get, add_item, remove_item, move_item, deref, modify, flush, list_items,
}
use windnet_game.ItemBag.Sort.{sort_items}
use windnet_game.Session.{Player, Env, send, with_bag, quiet, reply, success_body}
use windnet_game.Bson.{
  Object, get_int_val, body_of, int_value, bool_value, message, set_array_val, set_string_val,
  set_object_val,
}

-- The object of an item in the lists of doLoadItems and doSortItems.
abbrev pub item_fields : Item → Object
item_fields item = body_of (
    ("Id", int_value item.global_id)
    ∷ ("PropId", int_value item.item_id)
    ∷ ("Number", int_value (number item))
    ∷ ("Index", int_value (index item))
    ∷ [])

-- The loop of doLoadItems over the pointers that are not null.
unfoldable pub item_objects : (Item → Object) → List ℕ → Store → Outcome (List Object)
item_objects show [] s = ok []
item_objects show (a ∷ ptrs) s = do
  item ← need (deref s a)
  objs ← item_objects show ptrs s
  ok (show item ∷ objs)

-- ItemServlet::doLoadItems
unfoldable pub do_load_items : Player → Outcome (Bool × Player)
do_load_items p = do
  array ← item_objects item_fields (list_items p.bag.items) p.bag
  reply "OpenPackage" (set_array_val "Packages" array []) p

-- The loop of doSortItems, which also writes each item to the database.
unfoldable pub flush_objects : List ℕ → Store → Outcome (List Object × Store)
flush_objects [] s = ok ([], s)
flush_objects (a ∷ ptrs) s = do
  s₁ ← need (flush a s)
  item ← need (deref s₁ a)
  (objs, s₂) ← flush_objects ptrs s₁
  ok (item_fields item ∷ objs, s₂)

-- ItemServlet::doSortItems
unfoldable pub do_sort_items : Env → Player → Outcome (Bool × Player)
do_sort_items env p = do
  s ← need (sort_items env.now env.later p.bag)
  (array, s') ← flush_objects (list_items s.items) s
  reply "SortPackage" (set_array_val "Packages" array []) (record p { bag = s' })

-- ItemServlet::doMoveItem, whose place is a `short` from here on.
unfoldable pub do_move_item : Object → Player → Outcome (Bool × Player)
do_move_item request p = do
  from_id ← get_int_val "Id" request
  to_idx ← get_int_val "Index" request
  p' ← with_bag (move_item from_id (int16 to_idx)) p
  reply "MoveProps" success_body p'

-- The object of an item in the list of doGetEquipments.
abbrev pub equip_fields : Item → Object
equip_fields item =
    body_of (("Id", int_value item.global_id) ∷ ("Index", int_value (index item)) ∷ [])

-- ItemServlet::doGetEquipments
unfoldable pub do_get_equipments : Player → Outcome (Bool × Player)
do_get_equipments p = do
  array ← item_objects equip_fields p.equips p.bag
  reply "GetBody" (set_array_val "Equips" array []) p

-- ItemServlet::doGetStrengthEquipInfo
unfoldable pub do_get_strength_equip_info : Object → Player → Outcome (Bool × Player)
do_get_strength_equip_info request p = do
  dbid ← get_int_val "Id" request
  elim (get p.bag dbid) [
    | none ↦ quiet p
    | some a ↦ do
      item ← need (deref p.bag a)
      reply "PrevStrengProps"
          (body_of (
            ("PrevId", int_value item.item_id)
            ∷ ("PosId", int_value item.template.strength_next_level_id)
            ∷ []))
          p
  ]

-- Item::isEquip
abbrev pub set_is_equip : Bool → Item → Item
set_is_equip val item = record item { equipped = val }

-- ItemServlet::doEquipItem
unfoldable pub do_equip_item : Object → Player → Outcome (Bool × Player)
do_equip_item request p = do
  db_id ← get_int_val "Id" request
  elim (get p.bag db_id) [
    | none ↦ quiet p
    | some a ↦ do
      p₁ ← with_bag (modify a (set_is_equip true)) p
      p₂ ← with_bag (flush a) p₁
      p₃ ← with_bag (remove_item a true) p₂
      item ← need (deref p₃.bag a)
      reply "InBody"
          (body_of (
            ("Success", bool_value true)
            ∷ ("Id", int_value db_id)
            ∷ ("PropId", int_value item.item_id)
            ∷ ("Index", int_value (index item))
            ∷ []))
          p₃
  ]

-- ItemServlet::doUnEquipItem, which returns `false` where it succeeds.
unfoldable pub do_un_equip_item : Object → Player → Outcome (Bool × Player)
do_un_equip_item request p = do
  id ← get_int_val "Id" request
  elim (get p.bag id) [
    | none ↦ quiet p
    | some a ↦ do
      p₁ ← with_bag (modify a (set_is_equip false)) p
      p₂ ← with_bag (flush a) p₁
      p₃ ← with_bag (add_item a) p₂
      ok (false, send (message "OutBody" success_body) p₃)
  ]

-- ItemServlet::doAbandonItem
unfoldable pub do_abandon_item : Object → Player → Outcome (Bool × Player)
do_abandon_item request p = do
  id ← get_int_val "Id" request
  elim (get p.bag id) [
    | none ↦ quiet p
    | some a ↦ do
      p₁ ← with_bag (modify a (set_state item_state_deleted)) p
      p₂ ← with_bag (flush a) p₁
      p₃ ← with_bag (remove_item a false) p₂
      reply "AbandonProps" success_body p₃
  ]

-- ItemServlet::doGetEquipGems, whose list stands beside the body.
unfoldable pub do_get_equip_gems : Player → Outcome (Bool × Player)
do_get_equip_gems p =
    let response = set_array_val "Gems" [] (set_string_val "Command" "GetEquipGem" []) in
    ok (false, send (set_object_val "Body" [] response) p)

-- ItemServlet::doAddItem
unfoldable pub do_add_item : Player → Outcome (Bool × Player)
do_add_item p = quiet p
