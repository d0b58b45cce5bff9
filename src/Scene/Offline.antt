-- ===== src/Scene/Offline.antt =====
-- player_session.cpp: what a session leaves when its player goes offline.
use mathlib.Core.Path.{subst}
use windnet_game.Prelude.{
  negsuc, ℕ, ◌≡◌, refl, sym, ap, ◌∙◌, ℤ, none, some, Option, [], ◌∷◌, List, Map, get_or, set, find,
  int_key, find-put, ==ℤ_iff,
}
use windnet_game.Prelude.Outcome.{fault, ok, need, bind-ok, bind_at, need-ok, ok-injective}
use windnet_game.Prelude.Places.{get_or-set-none}
use windnet_game.Bson.{Object, message, body_of, int_value}
use windnet_game.World.{World, OnlineRole, session_role, live_role, role_of_session}
use windnet_game.Scene.{
  get_scene, remove_player, broadcast, receivers, send_all, leave, leave_scene, player_offline,
  write_scene,
}

send_all-sessions :
    (pss : List ℕ) (obj : Object) (w : World) → (send_all pss obj w).sessions ≡ w.sessions
send_all-sessions [] obj w = refl
send_all-sessions (ps ∷ pss) obj w = send_all-sessions pss obj _

send_all-scenes : (pss : List ℕ) (obj : Object) (w : World) → (send_all pss obj w).scenes ≡ w.scenes
send_all-scenes [] obj w = refl
send_all-scenes (ps ∷ pss) obj w = send_all-scenes pss obj _

-- What leaveScene does to the world, for a role with the id `id`.
record HasLeft (scene_id id : ℤ) (w w' : World) : Type 0 where
  players : Map ℤ ℕ
  was : find scene_id w.scenes ≡ some players
  now : find scene_id w'.scenes ≡ some (remove_player id players)
  same_sessions : w'.sessions ≡ w.sessions

leave_scene-HasLeft :
    (ps : ℕ) (scene_id : ℤ) (w w' : World) (role : OnlineRole)
    → role_of_session w ps ≡ ok role
    → leave_scene ps scene_id w ≡ ok w'
    → HasLeft scene_id role.player.role.role_id w w'
unfolding leave_scene get_scene broadcast
leave_scene-HasLeft ps scene_id w w' role here e =
    let e₁ = bind_at (role_of_session w ps) _ role _ here e in
    let (players, q, e₂) = bind-ok (need (get_scene w scene_id)) _ _ e₁ in
    let id = role.player.role.role_id in
    let left = remove_player id players in
    let w₁ = write_scene scene_id left w in
    let notify = message "OtherLeaveLobby" (body_of (("UserId", int_value id) ∷ [])) in
    let same : send_all (receivers (negsuc 0) left) notify w₁ ≡ w' = ok-injective _ _ e₂ in
    record {
      players = players;
      was = need-ok _ _ q;
      now =
          ap (λ v. find scene_id v.scenes) (sym same)
          ∙ ap (find scene_id) (send_all-scenes (receivers (negsuc 0) left) notify w₁)
          ∙ rw (find-put scene_id scene_id left w.scenes, (==ℤ_iff scene_id scene_id).1 refl) refl;
      same_sessions =
          ap (λ v. v.sessions) (sym same) ∙ send_all-sessions (receivers (negsuc 0) left) notify w₁;
    }

-- The part of the world that playerOffline leaves: the scene of the role, if it has one.
abbrev pub Left : Option ℤ → ℤ → Map ℤ (Map ℤ ℕ) → Map ℤ (Map ℤ ℕ) → Type 0
Left none id before after = after ≡ before
Left (some scene_id) id before after =
    (players : Map ℤ ℕ) × (find scene_id before ≡ some players)
    × (find scene_id after ≡ some (remove_player id players))

abbrev LeftAndStays : Option ℤ → ℤ → World → World → Type 0
LeftAndStays scene id w w' = Left scene id w.scenes w'.scenes × (w'.sessions ≡ w.sessions)

leave-Left :
    (ps : ℕ) (scene : Option ℤ) (w w' : World) (role : OnlineRole)
    → role_of_session w ps ≡ ok role
    → leave ps scene w ≡ ok w'
    → LeftAndStays scene role.player.role.role_id w w'
leave-Left ps none w w' role here e =
    (ap (λ v. v.scenes) (sym (ok-injective _ _ e)), ap (λ v. v.sessions) (sym (ok-injective _ _ e)))
leave-Left ps (some scene_id) w w' role here e =
    let h = leave_scene-HasLeft ps scene_id w w' role here e in
    ((h.players, h.was, h.now), h.same_sessions)

-- A `playerOffline` of a session with a role, when it returns, takes the role out of its scene, if
-- it stands in one, and leaves m_role pointing to the role that it has deleted, so that a second
-- `playerOffline` of the session uses a deleted role.
pub player_offline-twice :
    (ps r : ℕ) (w w' : World) (role : OnlineRole)
    → session_role w ps ≡ some r
    → live_role w r ≡ ok role
    → player_offline ps w ≡ ok w'
    → Left role.scene role.player.role.role_id w.scenes w'.scenes
      × (session_role w' ps ≡ some r)
      × (player_offline ps w' ≡ fault)
unfolding player_offline
player_offline-twice ps r w w' role at_r alive e =
    let e₀ = rw (player_offline, at_r) at e in
    let e₁ = bind_at (live_role w r) _ role _ alive e₀ in
    let (w₁, q, e₂) = bind-ok (leave ps role.scene w) _ _ e₁ in
    let same : record w₁ { roles = set w₁.roles r none } ≡ w' = ok-injective _ _ e₂ in
    let here : role_of_session w ps ≡ ok role = rw at_r alive in
    let (left, kept) = leave-Left ps role.scene w w₁ role here q in
    let at_r' : session_role w' ps ≡ some r =
      ap (λ v. session_role v ps) (sym same) ∙ ap (λ l. get_or l ps none) kept ∙ at_r in
    let dead : live_role w' r ≡ fault =
      ap (λ v. live_role v r) (sym same) ∙ ap need (get_or-set-none w₁.roles r) in
    (
      subst (λ m. Left role.scene role.player.role.role_id w.scenes m) (ap (λ v. v.scenes) same)
          left,
      at_r',
      rw (player_offline, at_r') (rw dead refl),
    )
