-- ===== src/Account/Mapped.antt =====
-- account_manager.cpp: registerAccount, and the accounts that the maps find.
use mathlib.Core.Option.{some-injective, some-ne-none}
use windnet_game.Prelude.{
  ℕ, ◌≡◌, refl, sym, ap, ◌∙◌, inl, inr, ℤ, pos, ==ℤ_iff, true, none, some, [], ◌∷◌, ◌++◌, List,
  length, get_elem?, Key, Map, find, put, insert, int_key, string_key, find-put, find-insert,
  Bool-cases, Option-cases, String,
}
use windnet_game.Prelude.Places.{get_elem?-append_left, get_elem?-append_here}
use windnet_game.Account.{
  insert_account, init_accounts, Accounts, AccountInfo, Answers, account_at, new_account,
  register_account, get_account_info, get_account_info_by_token,
}

-- The account that a map has at an address, which the map's key fits.
abbrev Fits : {K : Type 0} → (AccountInfo → K) → List AccountInfo → K → ℕ → Type 0
Fits key heap k a = (ai : AccountInfo) × (get_elem? heap a ≡ some ai) × (key ai ≡ k)

-- What a map finds is an account with that name, with that id, or with that token.
pub record IsMapped (am : Accounts) : Type 0 where
  pub named :
      (name : String) (a : ℕ)
      → find name am.name_map ≡ some a
      → Fits (λ ai. ai.account_name) am.account_heap name a
  pub identified :
      (id : ℤ) (a : ℕ)
      → find id am.id_map ≡ some a
      → Fits (λ ai. ai.account_id) am.account_heap id a
  pub tokened :
      (token : String) (a : ℕ)
      → find token am.token_account_map ≡ some a
      → Fits (λ ai. ai.token) am.account_heap token a

pub init_accounts-IsMapped : IsMapped init_accounts
unfolding find
init_accounts-IsMapped = record {
  named = λ name a e. absurd (some-ne-none a (sym e));
  identified = λ id a e. absurd (some-ne-none a (sym e));
  tokened = λ token a e. absurd (some-ne-none a (sym e));
}

module _ {K : Type 0} (key : AccountInfo → K) (heap : List AccountInfo) (new : AccountInfo) where
  grown : (k : K) (a : ℕ) → Fits key heap k a → Fits key (heap ++ new ∷ []) k a
  grown k a (ai, at, fits) = (ai, get_elem?-append_left heap (new ∷ []) a ai at, fits)

  -- A map of accounts in which the new account is put.
  put-Fits :
      ⦃order : Key K⦄ (m : Map K ℕ)
      → ((k : K) (a : ℕ) → find k m ≡ some a → Fits key heap k a)
      → (k : K) (a : ℕ) → find k (put (key new) (length heap) m) ≡ some a
      → Fits key (heap ++ new ∷ []) k a
  put-Fits ⦃order⦄ m old k a e = elim (Bool-cases (order.same (key new) k)) [
    | inl same ↦
        let here : length heap ≡ a =
          some-injective _ _ (rw (find-put (key new) k (length heap) m, same) at e) in
        (
          new,
          ap (get_elem? (heap ++ new ∷ [])) (sym here) ∙ get_elem?-append_here heap [] new,
          (order.same_iff (key new) k).0 same,
        )
    | inr other ↦ grown k a (old k a (rw (find-put (key new) k (length heap) m, other) at e))
  ]

  insert-Fits :
      ⦃order : Key K⦄ (m : Map K ℕ)
      → ((k : K) (a : ℕ) → find k m ≡ some a → Fits key heap k a)
      → (k : K) (a : ℕ) → find k (insert (key new) (length heap) m) ≡ some a
      → Fits key (heap ++ new ∷ []) k a
  unfolding insert
  insert-Fits m old k a e = elim (Option-cases (find (key new) m)) [
    | inl absent ↦ put-Fits m old k a (rw (insert, absent) at e)
    | inr (b, present) ↦ grown k a (old k a (rw (insert, present) at e))
  ]

get_elem?-end : (xs : List AccountInfo) → get_elem? xs (length xs) ≡ none
get_elem?-end [] = refl
get_elem?-end (x ∷ xs) = get_elem?-end xs

same_refl : (k : String) → string_key.same k k ≡ true
same_refl k = (string_key.same_iff k k).1 refl

-- Where the database takes the insertion and the token is new, `registerAccount` gives 0; the new
-- account is found by its name, by its id and by its token, at an address of its own; and whatever the
-- maps find after it is again an account with that name, with that id, or with that token.
pub register_account-IsMapped :
    (db : Answers) (name passwd : String) (am : Accounts)
    → IsMapped am
    → db.executed ≡ true
    → find db.new_token am.token_account_map ≡ none
    → (am' : Accounts) × (a : ℕ) × (register_account db name passwd am ≡ (pos 0, am'))
      × IsMapped am'
      × (account_at am' a ≡ some (new_account db.auto_id name passwd db.new_token db.new_open_id))
      × (get_account_info am' name ≡ some a)
      × (find db.auto_id am'.id_map ≡ some a)
      × (get_account_info_by_token am' db.new_token ≡ some a)
      × (get_elem? am.account_heap a ≡ none)
unfolding register_account get_account_info get_account_info_by_token
register_account-IsMapped db name passwd am v taken fresh =
    let new = new_account db.auto_id name passwd db.new_token db.new_open_id in
    let a = length am.account_heap in
    (
      record am {
        account_heap = am.account_heap ++ new ∷ [];
        id_map = put db.auto_id a am.id_map;
        name_map = put name a am.name_map;
        token_account_map = insert db.new_token a am.token_account_map;
        statements =
            insert_account name passwd db.clock db.new_token db.new_open_id ∷ am.statements;
      },
      a,
      rw (register_account, taken) refl,
      record {
        named = put-Fits (λ ai. ai.account_name) am.account_heap new am.name_map v.named;
        identified = put-Fits (λ ai. ai.account_id) am.account_heap new am.id_map v.identified;
        tokened = insert-Fits (λ ai. ai.token) am.account_heap new am.token_account_map v.tokened;
      },
      get_elem?-append_here am.account_heap [] new,
      rw (find-put name name a am.name_map, same_refl name) refl,
      rw (find-put db.auto_id db.auto_id a am.id_map, (==ℤ_iff db.auto_id db.auto_id).1 refl) refl,
      rw
          (
            find-insert db.new_token db.new_token a am.token_account_map fresh,
            same_refl db.new_token,
          )
          refl,
      get_elem?-end am.account_heap,
    )
