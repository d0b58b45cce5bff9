-- ===== src/Dispatch/Known.antt =====
-- The table of servlet.cpp against the servlets' doRequest.
use mathlib.Core.Option.{some-injective}
use windnet_game.Prelude.{
  ◌||◌, ◌==◌, ℕ, get_or, arith, ◌≡◌, refl, Bool, true, false, not, ◌&&◌, Option, none, some, [],
  ◌∷◌, String, Map, find, string_key, if◌then◌else◌, insert, put, Bool-cases, inl, inr, sym, ◌∙◌,
}
use windnet_game.Dispatch.{
  login_servlet, role_servlet, scene_servlet, task_servlet, item_servlet, gem_servlet,
  skill_servlet, soul_servlet, chat_servlet, friend_servlet, is_some, Servlet, init_table, handles,
  route,
}

and_left : (a b : Bool) → (a && b) ≡ true → a ≡ true
and_left a b h = ground arith

and_right : (a b : Bool) → (a && b) ≡ true → b ≡ true
and_right a b h = ground arith

if_true {ℓ} : {A : Type ℓ} {b : Bool} {x : A} (y : A) → b ≡ true → (if b then x else y) ≡ x
if_true y h = rw h refl

if_false {ℓ} : {A : Type ℓ} {b : Bool} (x : A) {y : A} → b ≡ false → (if b then x else y) ≡ y
if_false x h = rw h refl

unfoldable all_entries {ℓ} : {V : Type ℓ} → (String → V → Bool) → Map String V → Bool
all_entries p [] = true
all_entries p ((k, v) ∷ m) = p k v && all_entries p m

all_entries-find {ℓ} :
    {V : Type ℓ} (p : String → V → Bool) (m : Map String V) (k : String) (v : V)
    → all_entries p m ≡ true
    → find k m ≡ some v
    → p k v ≡ true
unfolding all_entries find
all_entries-find p [] k v h e = cc
all_entries-find p ((j, w) ∷ m) k v h e = elim (Bool-cases (string_key.same j k)) [
  | inl same ↦
      let v_eq : w ≡ v = some-injective _ _ (sym (if_true _ same) ∙ e) in
      let k_eq : j ≡ k = (string_key.same_iff j k).0 same in
      rw (sym v_eq, sym k_eq) (and_left _ _ h)
  | inr other ↦ all_entries-find p m k v (and_right _ _ h) (sym (if_false _ other) ∙ e)
]

table_handled : all_entries (λ k s. handles s k) init_table ≡ true
unfolding all_entries init_table handles route insert put find
table_handled = refl

-- Whatever the command, the servlet that the table gives for it has a branch for it.
pub init_table-handles :
    (command : String) (servlet : Servlet)
    → find command init_table ≡ some servlet
    → handles servlet command ≡ true
init_table-handles command servlet e =
    all_entries-find (λ k s. handles s k) init_table command servlet table_handled e

abbrev servlet_index : Servlet → ℕ
servlet_index login_servlet = 0
servlet_index role_servlet = 1
servlet_index scene_servlet = 2
servlet_index task_servlet = 3
servlet_index item_servlet = 4
servlet_index gem_servlet = 5
servlet_index skill_servlet = 6
servlet_index soul_servlet = 7
servlet_index chat_servlet = 8
servlet_index friend_servlet = 9

abbrev servlet_at : ℕ → Servlet
servlet_at i =
    get_or
      (login_servlet ∷ role_servlet ∷ scene_servlet ∷ task_servlet ∷ item_servlet ∷ gem_servlet
        ∷ skill_servlet ∷ soul_servlet ∷ chat_servlet ∷ [])
      i friend_servlet

abbrev found_is : Option Servlet → Servlet → Bool
found_is none s = false
found_is (some t) s = servlet_index t == servlet_index s

-- A servlet that no command is sent to.
abbrev is_unrouted : Servlet → Bool
is_unrouted chat_servlet = true
is_unrouted friend_servlet = true
is_unrouted _ = false

-- A branch for a command is reached, or it is that of GemServlet for "GetEquipGem", or one of a servlet
-- without a command, which the table does not have.
abbrev reached_or_hidden : Servlet → String → Bool
reached_or_hidden s k =
    found_is (find k init_table) s
    || ((string_key.same k "GetEquipGem" && servlet_index gem_servlet == servlet_index s)
        || (is_unrouted s && not (is_some (find k init_table))))
