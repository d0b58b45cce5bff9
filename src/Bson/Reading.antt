-- ===== src/Bson/Reading.antt =====
-- bson/bson_parser.cpp: what is read of a field that was written.
use windnet_game.Prelude.{
  ◌∙◌, ◌≡◌, refl, none, some, [], ◌∷◌, String, insert, find-insert, find, string_key, ap, true, ℕ,
  ℤ, Bool,
}
use windnet_game.Prelude.Outcome.{Outcome, ok}
use windnet_game.Bson.{
  Value, Object, fields_of, object_of, set_int_val, get_int_val, get_or_default, get_string_val,
  get_object_val, set_string_val, set_object_val, get_bool_val, get_double_val, set_bool_val,
  set_double_val,
}

pub object_of-fields_of : (obj : Object) → object_of (fields_of obj) ≡ obj
unfolding object_of fields_of
object_of-fields_of [] = refl
object_of-fields_of ((k, v) ∷ obj) = ap (λ o. (k, v) ∷ o) (object_of-fields_of obj)

same_refl : (k : String) → string_key.same k k ≡ true
same_refl k = (string_key.same_iff k k).1 refl

find-insert_new :
    (k : String) (v : Value) (obj : Object) → find k obj ≡ none → find k (insert k v obj) ≡ some v
find-insert_new k v obj h = rw (find-insert k k v obj h, same_refl k) refl

insert_taken :
    (k : String) (v w : Value) (obj : Object) → find k obj ≡ some w → insert k v obj ≡ obj
unfolding insert
insert_taken k v w obj h = rw (insert, h) refl

-- The first value that is written to a field stays: what is written later is dropped.
first_stays :
    (k : String) (v w : Value) (obj : Object)
    → find k obj ≡ none
    → find k (insert k w (insert k v obj)) ≡ some v
first_stays k v w obj h =
    rw (insert_taken k w v (insert k v obj) (find-insert_new k v obj h)) (find-insert_new k v obj h)

read_back {ℓ} :
    {A : Type ℓ} (conv : Value → Outcome A) (d : A) (k : String) (v w : Value) (obj : Object)
    → find k obj ≡ none
    → get_or_default conv d k (insert k w (insert k v obj)) ≡ conv v
unfolding get_or_default
read_back conv d k v w obj h = rw (get_or_default, first_stays k v w obj h) refl

-- What is written first to a field that is not there is what is read of it, for an integer, a
-- string, a truth value, a double and an object alike, and a later write to the field changes nothing.
first_write_is_read :
    (k s : String) (v : ℤ) (b : Bool) (d : ℕ) (sub obj : Object) (later : ℤ)
    → find k obj ≡ none
    → (get_int_val k (set_int_val k later (set_int_val k v obj)) ≡ ok v)
      × (get_string_val k (set_int_val k later (set_string_val k s obj)) ≡ ok s)
      × (get_bool_val k (set_int_val k later (set_bool_val k b obj)) ≡ ok b)
      × (get_double_val k (set_int_val k later (set_double_val k d obj)) ≡ ok d)
      × (get_object_val k (set_int_val k later (set_object_val k sub obj)) ≡ ok sub)
unfolding get_int_val set_int_val get_or_default get_string_val set_string_val get_bool_val
    set_bool_val get_double_val set_double_val get_object_val set_object_val
first_write_is_read k s v b d sub obj later h = (
  read_back _ _ k _ _ obj h,
  read_back _ _ k _ _ obj h,
  read_back _ _ k _ _ obj h,
  read_back _ _ k _ _ obj h,
  read_back _ _ k _ _ obj h ∙ ap ok (object_of-fields_of sub),
)
