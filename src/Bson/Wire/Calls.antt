-- ===== src/Bson/Wire/Calls.antt =====
-- The elements that serializeValue appends to a document.
use windnet_game.Prelude.{◌≡◌, refl, ap, List, [], ◌∷◌, ◌++◌, String}
use windnet_game.Bson.{
  Value, Values, Fields, bool_value, int_value, double_value, long_value, string_value, date_value,
  array_value, object_value, no_value, value, no_field, field,
}
use windnet_game.Bson.Wire.{
  Element, Elements, null_element, double_element, int_element, long_element, bool_element,
  string_element, date_element, binary_element, other_element, object_element, array_element,
  no_element, element, Call, append_double, append_int, append_bool, append_string, append_date,
  append_start_object, append_finish_object, append_start_array, append_finish_array,
  serialize_value, serialize_values, serialize_fields,
}

-- What the calls mean to the library: the calls that append the elements of a document, in their
-- order. The program appends no element of another type.
unfoldable mutual
  pub calls_of_element : String → Element → List Call
  calls_of_element key null_element = []
  calls_of_element key (double_element d) = append_double key d ∷ []
  calls_of_element key (int_element n) = append_int key n ∷ []
  calls_of_element key (long_element n) = []
  calls_of_element key (bool_element b) = append_bool key b ∷ []
  calls_of_element key (string_element s) = append_string key s ∷ []
  calls_of_element key (date_element t) = append_date key t ∷ []
  calls_of_element key binary_element = []
  calls_of_element key other_element = []
  calls_of_element key (object_element es) =
      append_start_object key ∷ (calls_of es ++ append_finish_object ∷ [])
  calls_of_element key (array_element es) =
      append_start_array key ∷ (calls_of es ++ append_finish_array ∷ [])

  pub calls_of : Elements → List Call
  calls_of no_element = []
  calls_of (element key e es) = calls_of_element key e ++ calls_of es

-- The element of a value; a long is not appended.
unfoldable mutual
  pub with_element : String → Value → Elements → Elements
  with_element key (bool_value b) es = element key (bool_element b) es
  with_element key (int_value n) es = element key (int_element n) es
  with_element key (double_value d) es = element key (double_element d) es
  with_element key (long_value n) es = es
  with_element key (string_value s) es = element key (string_element s) es
  with_element key (date_value t) es = element key (date_element t) es
  with_element key (array_value vs) es = element key (array_element (elements_of_values vs)) es
  with_element key (object_value fs) es = element key (object_element (elements_of fs)) es

  pub elements_of_values : Values → Elements
  elements_of_values no_value = no_element
  elements_of_values (value v vs) = with_element "" v (elements_of_values vs)

  pub elements_of : Fields → Elements
  elements_of no_field = no_element
  elements_of (field key v fs) = with_element key v (elements_of fs)

mutual
  unfolding calls_of with_element serialize_value

  calls_of-with_element :
      (key : String) (v : Value) (es : Elements)
      → calls_of (with_element key v es) ≡ serialize_value key v ++ calls_of es
  calls_of-with_element key (bool_value b) es = refl
  calls_of-with_element key (int_value n) es = refl
  calls_of-with_element key (double_value d) es = refl
  calls_of-with_element key (long_value n) es = refl
  calls_of-with_element key (string_value s) es = refl
  calls_of-with_element key (date_value t) es = refl
  calls_of-with_element key (array_value vs) es =
      ap (λ c. (append_start_array key ∷ (c ++ append_finish_array ∷ [])) ++ calls_of es)
        (calls_of-elements_of_values vs)
  calls_of-with_element key (object_value fs) es =
      ap (λ c. (append_start_object key ∷ (c ++ append_finish_object ∷ [])) ++ calls_of es)
        (calls_of-elements_of fs)

  calls_of-elements_of_values :
      (vs : Values) → calls_of (elements_of_values vs) ≡ serialize_values vs
  calls_of-elements_of_values no_value = refl
  calls_of-elements_of_values (value v vs) =
      rw (calls_of-with_element "" v (elements_of_values vs), calls_of-elements_of_values vs) refl

  pub calls_of-elements_of : (fs : Fields) → calls_of (elements_of fs) ≡ serialize_fields fs
  calls_of-elements_of no_field = refl
  calls_of-elements_of (field key v fs) =
      rw (calls_of-with_element key v (elements_of fs), calls_of-elements_of fs) refl
