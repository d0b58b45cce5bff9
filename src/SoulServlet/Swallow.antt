-- ===== src/SoulServlet/Swallow.antt =====
-- soul_item_servlet.cpp: doSwallowSoulItem and doSwallowAll. One soul takes over the experience of
-- others, and may rise to the templates of higher levels.
use windnet_game.Prelude.{
  ℕ, zero, suc, ℤ, pos, ◌+ℤ◌, ◌-ℤ◌, ◌==ℤ◌, ltb_ℤ, int16, int32, pos_part, Bool, true, false, none,
  some, [], ◌∷◌, if◌then◌else◌, Map, erase, int_key,
}
use windnet_game.Prelude.Outcome.{Outcome, fault, ok, need, ◌>>=◌}
use windnet_game.Item.{ItemTemplate}
use windnet_game.SoulsBag.{
  SoulItem, add_exp, set_soul_type, get_soul, remove, remove_hunted_soul, store_soul_item,
  deleted_type,
}
use windnet_game.Tables.{
  ItemTables, SoulTables, SoulInfo, get_template, get_soul_info, get_level_by_exp,
}
use windnet_game.Session.{Player, Env, quiet, reply}
use windnet_game.Bson.{Object, get_int_val, body_of, int_value}
use windnet_game.SoulServlet.{page_of, place_in_page, with_souls, soul_of, write_soul, flush_soul}

-- sit->getLevelByExp(soul->quality(), soul->exp()); the quality is that of the soul's template.
abbrev pub level_of : SoulTables → SoulItem → Outcome ℤ
level_of t soul = need (get_level_by_exp t soul.template.quality soul.exp)

-- The loop that follows strengthNextLevelId. A template that is missing is used by the printf in
-- its branch.
unfoldable pub next_template : ItemTables → ℕ → ItemTemplate → Outcome ItemTemplate
next_template t zero it = ok it
next_template t (suc n) it = elim (get_template t it.strength_next_level_id) [
  | none ↦ fault
  | some next ↦ next_template t n next
]

-- The soul behind the comparison of its levels.
unfoldable pub risen : ItemTables → ℤ → ℤ → SoulItem → Outcome SoulItem
risen t old_level new_level soul =
    let delta = int16 (new_level -ℤ old_level) in
    if new_level ==ℤ old_level then ok soul else do
      it ← next_template t (pos_part delta) soul.template
      ok (record soul { template = it; soul_id = it.item_id })

abbrev swallow_fields : SoulItem → Object
swallow_fields soul = body_of (
    ("Id", int_value soul.id)
    ∷ ("SoulMetaId", int_value soul.soul_id)
    ∷ ("Page", int_value (page_of soul))
    ∷ ("Index", int_value (place_in_page soul))
    ∷ ("Exp", int_value soul.exp)
    ∷ [])

-- The part of doSwallowSoulItem behind its tests: the soul at `a` swallows the one at `b`, which may
-- be the same.
unfoldable pub swallow : Env → ℕ → ℕ → SoulInfo → Player → Outcome (Bool × Player)
swallow env a b info p = do
  from ← soul_of p a
  to ← soul_of p b
  old_level ← level_of env.soul_tables from
  let fed = add_exp (int32 (info.swallow_exp +ℤ to.exp)) from
  new_level ← level_of env.soul_tables fed
  grown ← risen env.item_tables old_level new_level fed
  p₁ ← flush_soul a (write_soul a grown p)
  victim ← soul_of p₁ b
  p₂ ← flush_soul b (write_soul b (set_soul_type deleted_type victim) p₁)
  p₃ ← with_souls (remove b) p₂
  soul ← soul_of p₃ a
  reply "SwallowOne" (swallow_fields soul) p₃

-- SoulItemServlet::doSwallowSoulItem
unfoldable pub do_swallow_soul_item : Env → Object → Player → Outcome (Bool × Player)
do_swallow_soul_item env request p = do
  swallow_id ← get_int_val "Id" request
  swallowed_id ← get_int_val "BeId" request
  elim (get_soul p.souls swallow_id) [
    | none ↦ quiet p
    | some a ↦ elim (get_soul p.souls swallowed_id) [
      | none ↦ quiet p
      | some b ↦ do
        to ← soul_of p b
        to_level ← level_of env.soul_tables to
        if ltb_ℤ to_level (pos 0) then quiet p else do
          found ← need (get_soul_info env.soul_tables to.template.quality to_level)
          elim found [ none ↦ quiet p | some info ↦ swallow env a b info p ]
    ]
  ]

-- The soul of the best quality, the first of them: the loop at the head of doSwallowAll.
unfoldable pub best_soul : Player → ℕ → Map ℤ ℕ → Outcome ℕ
best_soul p a [] = ok a
best_soul p a ((id, b) ∷ m) = do
  soul ← soul_of p a
  other ← soul_of p b
  if ltb_ℤ soul.template.quality other.template.quality then best_soul p b m else best_soul p a m

-- The loop of doSwallowAll, which frees a soul and then reads its experience. The Bool is whether the
-- loop came to its end; otherwise the source gives up.
unfoldable pub swallow_each : Env → ℕ → Map ℤ ℕ → Player → Outcome (Bool × Player)
swallow_each env a [] p = ok (true, p)
swallow_each env a ((id, b) ∷ m) p = do
  soul ← soul_of p b
  lvl ← level_of env.soul_tables soul
  if ltb_ℤ lvl (pos 0) then ok (false, p) else do
    found ← need (get_soul_info env.soul_tables soul.template.quality lvl)
    elim found [
      | none ↦ ok (false, p)
      | some info ↦ do
        p₁ ← flush_soul b (write_soul b (set_soul_type deleted_type soul) p)
        p₂ ← with_souls (remove_hunted_soul b true) p₁
        freed ← soul_of p₂ b
        from ← soul_of p₂ a
        let gain = int32 (info.swallow_exp +ℤ freed.exp)
        swallow_each env a m (write_soul a (add_exp gain from) p₂)
    ]

-- The part of doSwallowAll behind its loop. The result of storeSoulItem is not looked at.
unfoldable pub swallowed : Env → ℕ → ℤ → Player → Outcome (Bool × Player)
swallowed env a old_level p = do
  soul ← soul_of p a
  new_level ← level_of env.soul_tables soul
  grown ← risen env.item_tables old_level new_level soul
  p₁ ← with_souls (remove_hunted_soul a false) (write_soul a grown p)
  (stored, s) ← need (store_soul_item a p₁.souls)
  p₂ ← flush_soul a (record p₁ { souls = s })
  last ← soul_of p₂ a
  reply "SwallowQuickly" (swallow_fields last) p₂

-- What follows the loop.
abbrev pub after_loop : Env → ℕ → ℤ → Bool × Player → Outcome (Bool × Player)
after_loop env a old_level (false, p) = quiet p
after_loop env a old_level (true, p) = swallowed env a old_level p

-- The body of doSwallowAll, for its copy of the map of hunted souls.
unfoldable pub swallow_copy : Env → Map ℤ ℕ → Player → Outcome (Bool × Player)
swallow_copy env [] p = quiet p
swallow_copy env ((id, first) ∷ m) p = do
  a ← best_soul p first m
  soul ← soul_of p a
  old_level ← level_of env.soul_tables soul
  done ← swallow_each env a (erase soul.id ((id, first) ∷ m)) p
  after_loop env a old_level done

-- SoulItemServlet::doSwallowAll
unfoldable pub do_swallow_all : Env → Player → Outcome (Bool × Player)
do_swallow_all env p = swallow_copy env p.souls.hunted p
