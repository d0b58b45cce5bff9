-- ===== src/RoleServlet/Tests.antt =====
-- Concrete requests for roles.
use windnet_game.Prelude.{ℕ, ◌≡◌, refl, pos, true, none, some, [], ◌∷◌, find, insert, put}
use windnet_game.Prelude.Outcome.{ok}
use windnet_game.Account.{
  Accounts, AccountInfo, Answers, init_accounts, new_account, new_role, role_at,
  get_role_info_by_name, get_account_info_by_token,
}
use windnet_game.Session.{success_body}
use windnet_game.World.{World, send_to}
use windnet_game.Bson.{
  Object, body_of, set_fields, string_value, int_value, message, get_string_val, get_int_val,
  get_or_default,
}
use windnet_game.RoleServlet.{do_create_role}
use windnet_game.RoleServlet.Creating.{AsksRole, do_create_role-twice}

abbrev taken : Answers
taken = record {
  executed = true;
  auto_id = pos 12;
  new_token = "c3";
  new_open_id = "d4";
  clock = 1400000000;
}

abbrev owner : AccountInfo
owner = new_account (pos 7) "william" "secret" "a1" "b2"

abbrev one_account : Accounts
one_account = record init_accounts {
  account_heap = owner ∷ [];
  token_account_map = ("a1", 0) ∷ [];
  name_map = ("william", 0) ∷ [];
  id_map = (pos 7, 0) ∷ [];
}

abbrev small_world : World
small_world = record {
  accounts = one_account;
  servers = [];
  sessions = none ∷ [];
  roles = [];
  scenes = [];
  online_players = [];
  cache_players = [];
  outbox = [];
}

abbrev hero_request : Object
hero_request = body_of (("Name", string_value "hero") ∷ ("ProfessId", int_value (pos 2)) ∷ [])

hero-AsksRole : AsksRole hero_request "a1" "hero" (pos 2)
unfolding body_of set_fields insert put find get_string_val get_int_val get_or_default
hero-AsksRole = record {
  has_token = refl;
  has_name = refl;
  has_profession = refl;
  name_given = refl;
}

do_create_role-twice_example :
    (w' : World) × (r : ℕ) × (do_create_role taken "a1" 0 hero_request small_world
      ≡ ok (true, send_to 0 (message "CreateRole" success_body) w'))
    × (get_role_info_by_name w'.accounts "hero" ≡ some r)
    × (role_at w'.accounts r ≡ some (new_role (pos 12) "hero" (pos 2) 1400000000))
    × (do_create_role taken "a1" 0 hero_request (send_to 0 (message "CreateRole" success_body) w')
        ≡ ok (
          true,
          send_to 0
              (message "CreateRole" success_body)
              (send_to 0 (message "CreateRole" success_body) w'),
        ))
unfolding find get_account_info_by_token get_role_info_by_name
do_create_role-twice_example =
    do_create_role-twice taken taken small_world hero_request hero_request "a1" "a1" "hero" (pos 2)
      (pos 2) 0 0 0 0 owner refl refl refl refl refl hero-AsksRole hero-AsksRole
