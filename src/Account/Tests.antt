-- ===== src/Account/Tests.antt =====
-- A concrete registration.
use windnet_game.Prelude.{ℕ, ℤ, ◌≡◌, refl, pos, true, none, some, find, get_elem?, int_key}
use windnet_game.Account.{
  Accounts, Answers, init_accounts, account_at, new_account, register_account, get_account_info,
  get_account_info_by_token,
}
use windnet_game.Account.Mapped.{IsMapped, init_accounts-IsMapped, register_account-IsMapped}

abbrev taken : Answers
taken = record {
  executed = true;
  auto_id = pos 7;
  new_token = "a1";
  new_open_id = "b2";
  clock = 1400000000;
}

register_account-IsMapped_example :
    (am' : Accounts) × (a : ℕ) × (register_account taken "william" "secret" init_accounts
      ≡ (pos 0, am'))
    × IsMapped am'
    × (account_at am' a ≡ some (new_account (pos 7) "william" "secret" "a1" "b2"))
    × (get_account_info am' "william" ≡ some a)
    × (find {K = ℤ} (pos 7) am'.id_map ≡ some a)
    × (get_account_info_by_token am' "a1" ≡ some a)
    × (get_elem? init_accounts.account_heap a ≡ none)
unfolding find
register_account-IsMapped_example =
    register_account-IsMapped taken "william" "secret" init_accounts init_accounts-IsMapped refl
      refl
