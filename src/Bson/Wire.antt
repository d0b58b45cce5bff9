-- ===== src/Bson/Wire.antt =====
-- bson/bson_parser.cpp: parse and serializeToBuffer. The library is what stands between an object and
-- its bytes: on the one side the calls that append to a document, on the other side what an iterator
-- shows of one. Both are arguments.
pub mod Calls
pub mod Received
pub mod Sending
mod Tests
use windnet_game.Prelude.{
  ℕ, ℤ, pos, Bool, true, false, Option, none, some, List, [], ◌∷◌, ◌++◌, String, insert, string_key,
  length, leb, if◌then◌else◌,
}
use windnet_game.Prelude.Outcome.{Outcome, fault, ok, ◌>>=◌}
use windnet_game.Net.Buffer.{Buffer, max_buffer_size, init, copy_in}
use windnet_game.Net.Packet.{serialize_to_buffer}
use windnet_game.Bson.{
  Value, Values, Fields, Object, bool_value, int_value, double_value, long_value, string_value,
  date_value, array_value, object_value, no_value, value, no_field, field, fields_of,
}

-- An element of a document, by its bson_iterator_type, and what the iterator gives for it. The types
-- that parseValue has no case for are `other_element`.
mutual
  pub data Element : Type 0 where
    null_element : Element
    double_element : ℕ → Element
    int_element : ℤ → Element
    long_element : ℤ → Element
    bool_element : Bool → Element
    string_element : String → Element
    date_element : ℤ → Element
    binary_element : Element
    other_element : Element
    object_element : Elements → Element
    array_element : Elements → Element

  pub data Elements : Type 0 where
    no_element : Elements
    element : String → Element → Elements → Elements

-- bson_bool_t is `int`.
abbrev pub bson_bool : Bool → ℤ
bson_bool true = pos 1
bson_bool false = pos 0

-- parseValue, and its loop over an object's elements. A `Value` that nothing is written to holds the
-- first type of the variant, `false`. The iterator over an array is used without being made.
unfoldable mutual
  pub parse_value : Element → Outcome Value
  parse_value null_element = ok (bool_value false)
  parse_value (double_element d) = ok (double_value d)
  parse_value (int_element n) = ok (int_value n)
  parse_value (long_element n) = ok (long_value n)
  parse_value (bool_element b) = ok (int_value (bson_bool b))
  parse_value (string_element s) = ok (string_value s)
  parse_value (date_element t) = ok (date_value t)
  parse_value binary_element = ok (bool_value false)
  parse_value other_element = ok (bool_value false)
  parse_value (object_element es) = do obj ← parse_elements es []; ok (object_value (fields_of obj))
  parse_value (array_element es) = fault

  pub parse_elements : Elements → Object → Outcome Object
  parse_elements no_element obj = ok obj
  parse_elements (element key e es) obj = do
    val ← parse_value e
    parse_elements es (insert key val obj)

-- BSON::parse, where `iterate` is the library's iterator over a document.
unfoldable pub parse : (List ℕ → Elements) → List ℕ → Outcome Object
parse iterate buffer = parse_elements (iterate buffer) []

-- The calls of the library in serializeValue.
pub data Call : Type 0 where
  append_double : String → ℕ → Call
  append_int : String → ℤ → Call
  append_bool : String → Bool → Call
  append_string : String → String → Call
  append_date : String → ℤ → Call
  append_start_object : String → Call
  append_finish_object : Call
  append_start_array : String → Call
  append_finish_array : Call

-- serializeValue, whose switch has no case for BSON_LONG. The type of a value is that of what it
-- holds, as the setters make it.
unfoldable mutual
  pub serialize_value : String → Value → List Call
  serialize_value key (bool_value b) = append_bool key b ∷ []
  serialize_value key (int_value n) = append_int key n ∷ []
  serialize_value key (double_value d) = append_double key d ∷ []
  serialize_value key (long_value n) = []
  serialize_value key (string_value s) = append_string key s ∷ []
  serialize_value key (date_value t) = append_date key t ∷ []
  serialize_value key (array_value vs) =
      append_start_array key ∷ (serialize_values vs ++ append_finish_array ∷ [])
  serialize_value key (object_value fs) =
      append_start_object key ∷ (serialize_fields fs ++ append_finish_object ∷ [])

  pub serialize_values : Values → List Call
  serialize_values no_value = []
  serialize_values (value v vs) = serialize_value "" v ++ serialize_values vs

  pub serialize_fields : Fields → List Call
  serialize_fields no_field = []
  serialize_fields (field key v fs) = serialize_value key v ++ serialize_fields fs

-- BSON::serializeToBuffer, where `finish` gives the bytes of a document by the calls that made it. A
-- document that is too large is left out.
unfoldable pub serialize_object : (List Call → List ℕ) → Buffer → Object → Option Buffer
serialize_object finish buffer obj =
    let doc = finish (serialize_fields (fields_of obj)) in
    if leb max_buffer_size (length doc) then some buffer else copy_in buffer (some doc) (length doc)

-- How a handler makes the bytes that it sends: a new Buffer, in whose array `bytes` are what is there
-- before, then BSON::serializeToBuffer and BsonBuffer::serializeToBuffer.
unfoldable pub to_send : (List Call → List ℕ) → List ℕ → Object → Option Buffer
to_send finish bytes obj = elim (serialize_object finish (init bytes) obj) [
  | none ↦ none
  | some buf ↦ serialize_to_buffer buf
]
