-- ===== src/GemServlet.antt =====
-- gem_servlet.cpp: the handlers of the requests about the gems of an item. The global
-- g_fragmentTemplate only keeps what the table of templates gives for the fragments.
use windnet_game.Prelude.{
  ℕ, ℤ, pos, ◌+ℤ◌, ◌*ℤ◌, ltb_ℤ, int8, int32, Bool, false, Option, none, some, List, [], ◌∷◌, String,
  if◌then◌else◌, find, string_key, get_elem?, set,
}
use windnet_game.Prelude.Outcome.{Outcome, fault, ok, need, ◌>>=◌}
use windnet_game.Item.{Item, Gem, add_gem, get_gem_by_id, set_state, item_state_deleted}
use windnet_game.ItemBag.{
  get, remove_item, deref, modify, flush, write_item, get_item_count_by_template_id,
}
use windnet_game.Tables.{get_template}
use windnet_game.Session.{
  Player, Env, with_bag, with_player, quiet, reply, error_body, strength_gem_no_enough_fragment,
}
use windnet_game.Dispatch.Routes
use windnet_game.Dispatch.Routes.{GemHandler, gem_chain}
use windnet_game.Bson.{Object, get_int_val, body_of, int_value, set_array_val}

-- Gem::GEM_FRAGMENT_ID
abbrev pub gem_fragment_id : ℤ
gem_fragment_id = pos 21000

-- The loop of doGetEquipGem, which uses every pointer of the vector.
unfoldable pub gem_objects : List (Option Gem) → Outcome (List Object)
gem_objects [] = ok []
gem_objects (none ∷ gems) = fault
gem_objects (some gem ∷ gems) = do
  objs ← gem_objects gems
  ok (
      body_of (
        ("Id", int_value gem.id)
        ∷ ("PropId", int_value gem.gem_id)
        ∷ ("Index", int_value gem.pos_in_item)
        ∷ ("Exp", int_value gem.exp)
        ∷ [])
      ∷ objs)

-- GemServlet::doGetEquipGem
unfoldable pub do_get_equip_gem : Object → Player → Outcome (Bool × Player)
do_get_equip_gem request p = do
  id ← get_int_val "Id" request
  elim (get p.bag id) [
    | none ↦ quiet p
    | some a ↦ do
      item ← need (deref p.bag a)
      array ← gem_objects item.gems
      reply "GetEquipGem" (set_array_val "Gems" array []) p
  ]

-- The part of doEquipGem behind Item::addGem; the gem's item is removed and written as deleted.
unfoldable pub gem_equipped : ℤ → ℤ → ℕ → ℕ → Option Item → Player → Outcome (Bool × Player)
gem_equipped equip_id idx a b none p = quiet p
gem_equipped equip_id idx a b (some item) p = do
  let p₁ = record p { bag = write_item a item p.bag }
  p₂ ← with_bag (remove_item b false) p₁
  p₃ ← with_bag (modify b (set_state item_state_deleted)) p₂
  p₄ ← with_bag (flush b) p₃
  p₅ ← with_bag (flush a) p₄
  reply "UpGem"
      (body_of (
        ("EquipId", int_value equip_id)
        ∷ ("Index", int_value idx)
        ∷ ("Exp", int_value (pos 0))
        ∷ []))
      p₅

-- GemServlet::doEquipGem, where the gem takes the id of the request for its gemId.
unfoldable pub do_equip_gem : Object → Player → Outcome (Bool × Player)
do_equip_gem request p = do
  equip_id ← get_int_val "EquipId" request
  gem_id ← get_int_val "GemId" request
  idx ← get_int_val "Index" request
  elim (get p.bag equip_id) [
    | none ↦ quiet p
    | some a ↦ elim (get p.bag gem_id) [
      | none ↦ quiet p
      | some b ↦ do
        equip_item ← need (deref p.bag a)
        gem_item ← need (deref p.bag b)
        let gem : Gem = record {
          id = gem_item.global_id;
          gem_id = gem_id;
          pos_in_item = int8 idx;
          exp = pos 0;
        }
        added ← need (add_gem gem equip_item)
        gem_equipped equip_id idx a b added p
    ]
  ]

-- GemServlet::doUnEquipGem
unfoldable pub do_un_equip_gem : Object → Player → Outcome (Bool × Player)
do_un_equip_gem request p = do
  equip_id ← get_int_val "EquipId" request
  gem_id ← get_int_val "GemId" request
  quiet p

abbrev pub set_gem : ℕ → Gem → Item → Item
set_gem i gem item = record item { gems = set item.gems i (some gem) }

-- The part of doStrengthGem behind its tests. ItemBag::decItemCountByTemplateId does nothing.
unfoldable pub feed_gem : ℤ → ℤ → ℕ → ℕ → Gem → ℤ → Player → Outcome (Bool × Player)
feed_gem fragment_count count a i gem fragment_exp p =
    if ltb_ℤ fragment_count count
    then reply "StrengGem" (error_body strength_gem_no_enough_fragment) p
    else let fed = record gem { exp = int32 (gem.exp +ℤ int32 (fragment_exp *ℤ count)) } in
      do
        p' ← with_bag (modify a (set_gem i fed)) p
        reply "StrengGem"
            (body_of (("PropId", int_value fed.gem_id) ∷ ("Exp", int_value fed.exp) ∷ [])) p'

-- m_gems[i], where getGemById has found a gem.
abbrev found_gem : Item → ℕ → Outcome Gem
found_gem item i = do slot ← need (get_elem? item.gems i); need slot

-- GemServlet::doStrengthGem
unfoldable pub do_strength_gem : Env → Object → Player → Outcome (Bool × Player)
do_strength_gem env request p = do
  equip_id ← get_int_val "EquipId" request
  gem_id ← get_int_val "GemId" request
  count ← get_int_val "Count" request
  elim (get p.bag equip_id) [
    | none ↦ quiet p
    | some a ↦ do
      item ← need (deref p.bag a)
      elim (get_gem_by_id item.gems gem_id) [
        | none ↦ quiet p
        | some i ↦ do
          gem ← found_gem item i
          elim (get_template env.item_tables gem.gem_id) [
            | none ↦ quiet p
            | some gem_temp ↦ elim (get_template env.item_tables gem_fragment_id) [
              | none ↦ quiet p
              | some fragment ↦ do
                n ← need (get_item_count_by_template_id p.bag.heap p.bag.item_map gem_fragment_id)
                feed_gem n count a i gem fragment.corresponding_exp p
            ]
          ]
      ]
  ]

unfoldable pub call_gem_handler : GemHandler → Env → Object → Player → Outcome (Bool × Player)
call_gem_handler Routes.on_get_equip_gem env request p = do_get_equip_gem request p
call_gem_handler Routes.on_equip_gem env request p = do_equip_gem request p
call_gem_handler Routes.on_un_equip_gem env request p = do_un_equip_gem request p
call_gem_handler Routes.on_strength_gem env request p = do_strength_gem env request p

-- The handlers in a session without a role: they read the request, and then use a null pointer.
unfoldable pub without_role : GemHandler → Object → Outcome (Bool × Option Player)
without_role Routes.on_get_equip_gem request = do id ← get_int_val "Id" request; fault
without_role Routes.on_equip_gem request = do
  equip_id ← get_int_val "EquipId" request
  gem_id ← get_int_val "GemId" request
  idx ← get_int_val "Index" request
  fault
without_role Routes.on_un_equip_gem request = do
  equip_id ← get_int_val "EquipId" request
  gem_id ← get_int_val "GemId" request
  fault
without_role Routes.on_strength_gem request = do
  equip_id ← get_int_val "EquipId" request
  gem_id ← get_int_val "GemId" request
  count ← get_int_val "Count" request
  fault

-- GemServlet::doRequest, which does not test that the session has a role.
unfoldable pub do_gem_request :
    Env → String → Object → Option Player → Outcome (Bool × Option Player)
do_gem_request env type request session = elim (find type gem_chain) [
  | none ↦ ok (false, session)
  | some handler ↦ elim session [
    | none ↦ without_role handler request
    | some p ↦ with_player (call_gem_handler handler env request p)
  ]
]
