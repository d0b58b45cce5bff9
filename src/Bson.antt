-- ===== src/Bson.antt =====
-- bson/bson_parser.h and bson/bson_parser.cpp: the values of a message, and the functions that read
-- and write the fields of an object. An object is a std::map; inside a value it is spelled out as
-- `Fields`. A double is its 64 bits, which are only copied. What is outside is the library that turns
-- bytes into objects and back.
pub mod Reading
pub mod Wire
mod Tests
use windnet_game.Prelude.{
  ℕ, ℤ, pos, Bool, false, Option, none, some, List, [], ◌∷◌, String, Map, find, insert, string_key,
}
use windnet_game.Prelude.Outcome.{Outcome, thrown, ok}

mutual
  pub data Value : Type 0 where
    bool_value : Bool → Value
    int_value : ℤ → Value
    double_value : ℕ → Value
    long_value : ℤ → Value
    string_value : String → Value
    date_value : ℤ → Value
    array_value : Values → Value
    object_value : Fields → Value

  pub data Values : Type 0 where
    no_value : Values
    value : Value → Values → Values

  pub data Fields : Type 0 where
    no_field : Fields
    field : String → Value → Fields → Fields

abbrev pub Object : Type 0
Object = Map String Value

-- An object inside a value.
unfoldable pub fields_of : Object → Fields
fields_of [] = no_field
fields_of ((k, v) ∷ obj) = field k v (fields_of obj)

unfoldable pub object_of : Fields → Object
object_of no_field = []
object_of (field k v fs) = (k, v) ∷ object_of fs

-- An array, which a handler builds from objects.
unfoldable pub values_of : List Object → Values
values_of [] = no_value
values_of (obj ∷ objs) = value (object_value (fields_of obj)) (values_of objs)

-- Value::get: boost::get of another type than the value's throws.
abbrev pub int_of : Value → Outcome ℤ
int_of (int_value n) = ok n
int_of _ = thrown

abbrev pub bool_of : Value → Outcome Bool
bool_of (bool_value b) = ok b
bool_of _ = thrown

abbrev pub double_of : Value → Outcome ℕ
double_of (double_value d) = ok d
double_of _ = thrown

abbrev pub string_of : Value → Outcome String
string_of (string_value s) = ok s
string_of _ = thrown

abbrev pub fields_in : Value → Outcome Object
fields_in (object_value fs) = ok (object_of fs)
fields_in _ = thrown

abbrev pub values_in : Value → Outcome (Option Values)
values_in (array_value vs) = ok (some vs)
values_in _ = thrown

-- A field's value, or the default of a field that is missing.
unfoldable pub get_or_default {ℓ} :
    {A : Type ℓ} → (Value → Outcome A) → A → String → Object → Outcome A
get_or_default conv d key obj = elim (find key obj) [ none ↦ ok d | some v ↦ conv v ]

-- getIntVal and the others. getArrayVal's missing array is a null pointer.
unfoldable pub get_int_val : String → Object → Outcome ℤ
get_int_val key obj = get_or_default int_of (pos 0) key obj

unfoldable pub get_bool_val : String → Object → Outcome Bool
get_bool_val key obj = get_or_default bool_of false key obj

unfoldable pub get_double_val : String → Object → Outcome ℕ
get_double_val key obj = get_or_default double_of 0 key obj

unfoldable pub get_string_val : String → Object → Outcome String
get_string_val key obj = get_or_default string_of "" key obj

unfoldable pub get_object_val : String → Object → Outcome Object
get_object_val key obj = get_or_default fields_in [] key obj

unfoldable pub get_array_val : String → Object → Outcome (Option Values)
get_array_val key obj = get_or_default values_in none key obj

-- setIntVal and the others: a field that is there keeps its value.
unfoldable pub set_int_val : String → ℤ → Object → Object
set_int_val key val obj = insert key (int_value val) obj

unfoldable pub set_bool_val : String → Bool → Object → Object
set_bool_val key val obj = insert key (bool_value val) obj

unfoldable pub set_double_val : String → ℕ → Object → Object
set_double_val key val obj = insert key (double_value val) obj

unfoldable pub set_string_val : String → String → Object → Object
set_string_val key val obj = insert key (string_value val) obj

unfoldable pub set_object_val : String → Object → Object → Object
set_object_val key val obj = insert key (object_value (fields_of val)) obj

unfoldable pub set_array_val : String → List Object → Object → Object
set_array_val key val obj = insert key (array_value (values_of val)) obj

-- An object by its fields, which are set in this order.
unfoldable pub set_fields : List (String × Value) → Object → Object
set_fields [] obj = obj
set_fields ((key, val) ∷ fs) obj = set_fields fs (insert key val obj)

unfoldable pub body_of : List (String × Value) → Object
body_of fs = set_fields fs []

-- A message to a client: a command and a body.
unfoldable pub message : String → Object → Object
message command body = set_object_val "Body" body (set_string_val "Command" command [])
