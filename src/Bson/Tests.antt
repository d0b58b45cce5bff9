-- ===== src/Bson/Tests.antt =====
-- Concrete messages.
use windnet_game.Prelude.{insert, put, ◌≡◌, refl, pos, [], true, find, string_key}
use windnet_game.Prelude.Outcome.{ok, thrown}
use windnet_game.Bson.{
  set_int_val, get_int_val, set_bool_val, get_string_val, Object, get_or_default,
}

abbrev sample : Object
sample = set_bool_val "Success" true (set_int_val "Id" (pos 7) [])

reads_id : get_int_val "Id" sample ≡ ok (pos 7)
unfolding get_int_val set_bool_val set_int_val get_or_default find insert put
reads_id = refl

-- A value of another type throws.
wrong_type : get_string_val "Id" sample ≡ thrown
unfolding get_string_val set_bool_val set_int_val get_or_default find insert put
wrong_type = refl
