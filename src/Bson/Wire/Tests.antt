-- ===== src/Bson/Wire/Tests.antt =====
-- A concrete message, and a library that knows only its document.
use windnet_game.Prelude.{
  ℕ, ◌≤◌, ◌<◌, ◌≡◌, ◌⊎◌, refl, pos, true, none, some, List, [], ◌∷◌, length, replicate,
  length-replicate, append-nil, sym, ◌∙◌, arith, string_key,
}
use windnet_game.Prelude.Outcome.{fault, ok}
use windnet_game.Net.Buffer.{Buffer}
use windnet_game.Net.Buffer.Stream.{IsValid, unread}
use windnet_game.Net.Holding.{holding, holding-IsValid, unread-holding}
use windnet_game.Net.Packet.Head.{length-packet}
use windnet_game.Net.Packet.{packet_bytes, parse_from_buffer, parsed}
use windnet_game.Bson.{
  Object, bool_value, int_value, string_value, object_value, array_value, no_value, field, no_field,
  fields_of, object_of,
}
use windnet_game.Bson.Wire.{Call, Elements, parse, to_send}
use windnet_game.Bson.Wire.Calls.{elements_of}
use windnet_game.Bson.Wire.Received.{received, has_array}
use windnet_game.Bson.Wire.Sending.{to_send-parse, to_send-large, parse-document-array}

abbrev sent_answer : Object
sent_answer =
    (
      "Body",
      object_value (field "Id" (int_value (pos 7)) (field "Success" (bool_value true) no_field)),
    )
    ∷ ("Command", string_value "EquipSoulMeta")
    ∷ []

abbrev doc : List ℕ
doc = 65 ∷ 66 ∷ 67 ∷ []

abbrev finish : List Call → List ℕ
finish calls = doc

abbrev iterate : List ℕ → Elements
unfolding elements_of fields_of
iterate bytes = elements_of (fields_of sent_answer)

abbrev array : List ℕ
array = replicate 8192 0

abbrev receiver : Buffer
receiver = holding (packet_bytes doc) 8179

to_send-parse_example :
    (s r' : Buffer) × (to_send finish array sent_answer ≡ some s)
    × (unread s ≡ packet_bytes doc)
    × (parse_from_buffer receiver ≡ (parsed doc, r'))
    × (parse iterate doc ≡ ok (object_of (received (fields_of sent_answer))))
    × IsValid r'
    × (unread r' ≡ [])
unfolding elements_of fields_of
to_send-parse_example =
    to_send-parse finish iterate array sent_answer receiver [] refl refl
      ((tt, (refl, refl, tt), (tt, tt, tt)), (refl, refl, tt), (tt, tt, tt))
      (omega arith, (omega arith, (omega arith, tt))) (omega arith)
      (holding-IsValid (packet_bytes doc) 8179 (omega (arith, length-packet doc)))
      (unread-holding (packet_bytes doc) 8179 ∙ sym (append-nil (packet_bytes doc)))

abbrev ones : List ℕ
ones = replicate 8190 1

to_send-large_example :
    ((length (ones) < 8192) × (to_send (λ calls. ones) array sent_answer ≡ none))
    ⊎ ((8192 ≤ length (ones))
        × (s : Buffer) × (to_send (λ calls. ones) array sent_answer ≡ some s)
        × (unread s ≡ packet_bytes []))
to_send-large_example =
    to_send-large (λ calls. ones) iterate array sent_answer refl
      (omega (arith, length-replicate {0} {A = ℕ} 8190 1))

abbrev listing : Object
listing = ("Souls", array_value no_value) ∷ []

parse-document-array_example : parse (λ bytes. elements_of (fields_of listing)) doc ≡ fault
unfolding elements_of fields_of has_array
parse-document-array_example =
    parse-document-array finish (λ bytes. elements_of (fields_of listing)) array listing refl refl
