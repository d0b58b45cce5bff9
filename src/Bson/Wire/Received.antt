-- ===== src/Bson/Wire/Received.antt =====
-- What parse makes of a document that serializeToBuffer has written.
use mathlib.Core.Bool.{true≢false}
use windnet_game.Prelude.{
  ◌≡◌, refl, sym, ap, ◌∙◌, Bool, true, false, ◌||◌, [], ◌∷◌, ◌++◌, append_assoc, append-nil, String,
  find, put, insert, string_key, inl, inr, Bool-cases, none,
}
use windnet_game.Prelude.Outcome.{fault, ok}
use windnet_game.Bson.{
  Value, Fields, Object, bool_value, int_value, double_value, long_value, string_value, date_value,
  array_value, object_value, no_field, field, fields_of, object_of,
}
use windnet_game.Bson.Wire.{Elements, parse_value, parse_elements, bson_bool}
use windnet_game.Bson.Wire.Calls.{with_element, elements_of}

-- A truth value arrives as a number; the rest as it is.
unfoldable mutual
  pub received_value : Value → Value
  received_value (bool_value b) = int_value (bson_bool b)
  received_value (object_value fs) = object_value (received fs)
  received_value v = v

  pub received : Fields → Fields
  received no_field = no_field
  received (field key v fs) = field key (received_value v) (received fs)

-- The key is in front of those of the fields, as in a std::map.
abbrev pub InFront : String → Fields → Type 0
InFront k no_field = Unit {0}
InFront k (field j v fs) =
    (string_key.same k j ≡ false) × (string_key.less j k ≡ false) × InFront k fs

-- The objects in it are maps, and there is no array and no long.
abbrev mutual
  pub IsPlain : Value → Type 0
  IsPlain (array_value vs) = ⊥
  IsPlain (long_value n) = ⊥
  IsPlain (object_value fs) = IsPlainMap fs
  IsPlain v = Unit {0}

  pub IsPlainMap : Fields → Type 0
  IsPlainMap no_field = Unit {0}
  IsPlainMap (field k v fs) = IsPlain v × InFront k fs × IsPlainMap fs

-- Every key of the object is in front of the fields.
abbrev AllInFront : Object → Fields → Type 0
AllInFront [] fs = Unit {0}
AllInFront ((k, v) ∷ obj) fs = InFront k fs × AllInFront obj fs

find_behind :
    (obj : Object) (key : String) (v : Value) (fs : Fields)
    → AllInFront obj (field key v fs)
    → find key obj ≡ none
unfolding find
find_behind [] key v fs h = refl
find_behind ((k, w) ∷ obj) key v fs ((same, less, rest), more) =
    rw same (find_behind obj key v fs more)

put_behind :
    (obj : Object) (key : String) (u v : Value) (fs : Fields)
    → AllInFront obj (field key v fs)
    → put key u obj ≡ obj ++ (key, u) ∷ []
unfolding put
put_behind [] key u v fs h = refl
put_behind ((k, w) ∷ obj) key u v fs ((same, less, rest), more) =
    rw (same, less) (ap (◌∷◌ (k, w)) (put_behind obj key u v fs more))

insert_behind :
    (obj : Object) (key : String) (u v : Value) (fs : Fields)
    → AllInFront obj (field key v fs)
    → insert key u obj ≡ obj ++ (key, u) ∷ []
unfolding insert
insert_behind obj key u v fs h =
    rw (insert, find_behind obj key v fs h) (put_behind obj key u v fs h)

front_step :
    (obj : Object) (key : String) (u v : Value) (fs : Fields)
    → AllInFront obj (field key v fs)
    → InFront key fs
    → AllInFront (obj ++ (key, u) ∷ []) fs
front_step [] key u v fs h k = (k, tt)
front_step ((j, w) ∷ obj) key u v fs ((same, less, rest), more) k =
    (rest, front_step obj key u v fs more k)

fields_of-object_of : (fs : Fields) → fields_of (object_of fs) ≡ fs
unfolding fields_of object_of
fields_of-object_of no_field = refl
fields_of-object_of (field k v fs) = ap (field k v) (fields_of-object_of fs)

mutual
  unfolding parse_value with_element received object_of

  parse-with_element :
      (key : String) (v : Value) (es : Elements) (obj : Object)
      → IsPlain v
      → parse_elements (with_element key v es) obj
        ≡ parse_elements es (insert key (received_value v) obj)
  parse-with_element key (bool_value b) es obj h = refl
  parse-with_element key (int_value n) es obj h = refl
  parse-with_element key (double_value d) es obj h = refl
  parse-with_element key (long_value n) es obj h = absurd h
  parse-with_element key (string_value s) es obj h = refl
  parse-with_element key (date_value t) es obj h = refl
  parse-with_element key (array_value vs) es obj h = absurd h
  parse-with_element key (object_value fs) es obj h =
      rw (parse-elements_of fs [] h tt, fields_of-object_of (received fs)) refl

  pub parse-elements_of :
      (fs : Fields) (obj : Object)
      → IsPlainMap fs
      → AllInFront obj fs
      → parse_elements (elements_of fs) obj ≡ ok (obj ++ object_of (received fs))
  parse-elements_of no_field obj h front = ap ok (sym (append-nil obj))
  parse-elements_of (field key v fs) obj (plain, above, rest) front =
      let new = obj ++ (key, received_value v) ∷ [] in
      parse-with_element key v (elements_of fs) obj plain
      ∙ ap (parse_elements (elements_of fs)) (insert_behind obj key (received_value v) v fs front)
      ∙ parse-elements_of fs new rest (front_step obj key (received_value v) v fs front above)
      ∙ ap ok (append_assoc obj ((key, received_value v) ∷ []) (object_of (received fs)))

-- An array anywhere in it.
unfoldable mutual
  pub has_array : Value → Bool
  has_array (array_value vs) = true
  has_array (object_value fs) = has_array_field fs
  has_array v = false

  pub has_array_field : Fields → Bool
  has_array_field no_field = false
  has_array_field (field key v fs) = has_array v || has_array_field fs

mutual
  unfolding parse_value with_element has_array

  -- A value without an array is parsed to something.
  parse_on :
      (key : String) (v : Value) (es : Elements) (obj : Object)
      → has_array v ≡ false
      → (obj' : Object) × (parse_elements (with_element key v es) obj ≡ parse_elements es obj')
  parse_on key (bool_value b) es obj h = (_, refl)
  parse_on key (int_value n) es obj h = (_, refl)
  parse_on key (double_value d) es obj h = (_, refl)
  parse_on key (long_value n) es obj h = (obj, refl)
  parse_on key (string_value s) es obj h = (_, refl)
  parse_on key (date_value t) es obj h = (_, refl)
  parse_on key (array_value vs) es obj h = absurd cc
  parse_on key (object_value fs) es obj h =
      let (inner, e) = parse_ok fs [] h in
      (insert key (object_value (fields_of inner)) obj, rw e refl)

  parse_ok :
      (fs : Fields) (obj : Object)
      → has_array_field fs ≡ false
      → (obj' : Object) × (parse_elements (elements_of fs) obj ≡ ok obj')
  parse_ok no_field obj h = (obj, refl)
  parse_ok (field key v fs) obj h = elim (Bool-cases (has_array v)) [
    | inl bad ↦ absurd (true≢false (rw bad at h))
    | inr good ↦
        let (next, e) = parse_on key v (elements_of fs) obj good in
        let (last, f) = parse_ok fs next (rw good at h) in (last, e ∙ f)
  ]

mutual
  unfolding parse_value with_element has_array

  parse-array_value :
      (key : String) (v : Value) (es : Elements) (obj : Object)
      → has_array v ≡ true
      → parse_elements (with_element key v es) obj ≡ fault
  parse-array_value key (bool_value b) es obj h = absurd cc
  parse-array_value key (int_value n) es obj h = absurd cc
  parse-array_value key (double_value d) es obj h = absurd cc
  parse-array_value key (long_value n) es obj h = absurd cc
  parse-array_value key (string_value s) es obj h = absurd cc
  parse-array_value key (date_value t) es obj h = absurd cc
  parse-array_value key (array_value vs) es obj h = refl
  parse-array_value key (object_value fs) es obj h = rw (parse-array fs [] h) refl

  pub parse-array :
      (fs : Fields) (obj : Object)
      → has_array_field fs ≡ true
      → parse_elements (elements_of fs) obj ≡ fault
  parse-array no_field obj h = absurd cc
  parse-array (field key v fs) obj h = elim (Bool-cases (has_array v)) [
    | inl bad ↦ parse-array_value key v (elements_of fs) obj bad
    | inr good ↦
        let (next, e) = parse_on key v (elements_of fs) obj good in
        e ∙ parse-array fs next (rw good at h)
  ]
