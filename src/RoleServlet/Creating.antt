-- ===== src/RoleServlet/Creating.antt =====
-- role_servlet.cpp: the answers of doLoadRoles and of doCreateRole.
use windnet_game.Prelude.{
  length, set, ◌++◌, insert, int_key, find-insert, ℕ, ◌≡◌, refl, ℤ, true, false, none, some, Option,
  [], ◌∷◌, String, string_key, Bool-cases, inl, inr,
}
use windnet_game.Prelude.Outcome.{Outcome-cases, ok}
use windnet_game.Prelude.Places.{get_elem?-append_here}
use windnet_game.Account.{
  account_at, role_at, new_role, create_role, insert_role, Accounts, AccountInfo, Answers,
  get_account_info_by_id, get_account_info_by_token, get_role_info_by_name,
}
use windnet_game.Session.{success_body}
use windnet_game.World.{World, send_to}
use windnet_game.LoginServlet.{is_empty}
use windnet_game.Bson.{Object, get_int_val, get_string_val, message}
use windnet_game.RoleServlet.{
  do_load_roles, load_roles_error, do_create_role, created, account_found,
}

load_roles_error-false :
    (token : String) (ai : Option AccountInfo) → load_roles_error token ai ≡ false
unfolding load_roles_error
load_roles_error-false token none = refl
load_roles_error-false token (some ai) = elim (Bool-cases (is_empty token)) [
  | inl e ↦ rw e refl
  | inr e ↦ elim (Bool-cases (string_key.same ai.token token)) [
    | inl f ↦ rw (e, f) refl
    | inr f ↦ rw (e, f) refl
  ]
]

-- `doLoadRoles` asks for no proof of who asks: what it does is the same for every two tokens, so the
-- roles of an account are shown to a client with no token or with the token of another account.
do_load_roles-any_token :
    (token other : String) (ps : ℕ) (request : Object) (w : World)
    → do_load_roles token ps request w ≡ do_load_roles other ps request w
unfolding do_load_roles
do_load_roles-any_token token other ps request w =
    elim (Outcome-cases (get_int_val "UserId" request)) [
      | inl f ↦ rw (do_load_roles, f) refl
      | inr (inl t) ↦ rw (do_load_roles, t) refl
      | inr (inr (id, e)) ↦
          let found = account_found w.accounts (get_account_info_by_id w.accounts id) in
          rw
            (
              do_load_roles,
              e,
              load_roles_error-false token found,
              load_roles_error-false other found,
            )
            refl
    ]

same_refl : (k : String) → string_key.same k k ≡ true
same_refl k = (string_key.same_iff k k).1 refl

-- What a request and a token give to doCreateRole.
pub record AsksRole (request : Object) (token name : String) (profession : ℤ) : Type 0 where
  pub has_token : is_empty token ≡ false
  pub has_name : get_string_val "Name" request ≡ ok name
  pub has_profession : get_int_val "ProfessId" request ≡ ok profession
  pub name_given : is_empty name ≡ false

-- A new name becomes a role where the database takes it, and both the request that makes it and a
-- later request for the same name are answered with "Success"; the later one makes nothing, whoever
-- asks for it.
pub do_create_role-twice :
    (db db' : Answers) (w : World) (request second : Object) (token token' name : String)
    (profession profession' : ℤ) (ps ps' a b : ℕ) (ai : AccountInfo)
    → db.executed ≡ true
    → get_account_info_by_token w.accounts token ≡ some a
    → account_at w.accounts a ≡ some ai
    → get_account_info_by_token w.accounts token' ≡ some b
    → get_role_info_by_name w.accounts name ≡ none
    → AsksRole request token name profession
    → AsksRole second token' name profession'
    → (w' : World) × (r : ℕ) × (do_create_role db token ps request w
        ≡ ok (true, send_to ps (message "CreateRole" success_body) w'))
      × (get_role_info_by_name w'.accounts name ≡ some r)
      × (role_at w'.accounts r ≡ some (new_role db.auto_id name profession db.clock))
      × (do_create_role db' token' ps' second (send_to ps (message "CreateRole" success_body) w')
          ≡ ok (
            true,
            send_to ps'
                (message "CreateRole" success_body)
                (send_to ps (message "CreateRole" success_body) w'),
          ))
unfolding do_create_role created create_role get_role_info_by_name get_account_info_by_token
do_create_role-twice db db' w request second token token' name profession profession' ps ps' a b ai
      taken at_a there at_b fresh asks again =
    let r = length w.accounts.role_heap in
    let new = new_role db.auto_id name profession db.clock in
    let am : Accounts = record (w.accounts) {
      account_heap =
          set w.accounts.account_heap a (record ai { roles = insert db.auto_id r ai.roles });
      role_heap = w.accounts.role_heap ++ new ∷ [];
      role_id_map = insert db.auto_id r w.accounts.role_id_map;
      role_name_map = insert name r w.accounts.role_name_map;
      statements = insert_role ai.account_id name profession db.clock ∷ w.accounts.statements;
    } in
    let found : get_role_info_by_name am name ≡ some r =
      rw (find-insert name name r w.accounts.role_name_map fresh, same_refl name) refl in
    (
      record w { accounts = am },
      r,
      rw (do_create_role, asks.has_token, asks.has_name, asks.has_profession, asks.name_given, at_a)
          (rw (created, fresh, create_role, there, taken) refl),
      found,
      get_elem?-append_here w.accounts.role_heap [] new,
      rw
          (
            do_create_role, again.has_token, again.has_name, again.has_profession, again.name_given,
            at_b,
          )
          (rw (created, found) refl),
    )
