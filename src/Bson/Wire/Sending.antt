-- ===== src/Bson/Wire/Sending.antt =====
-- An object on its way: from the server's handlers to the bytes that are sent, and back to an object
-- in BsonBuffer::parseFromBuffer.
use mathlib.Core.Path.{subst}
use windnet_game.Prelude.{
  ℕ, ◌+◌, ◌≤◌, ◌<◌, ◌≡◌, ◌⊎◌, inl, inr, refl, sym, ap, ◌∙◌, true, none, some, List, [], ◌++◌,
  length, leb, arith, Bool-cases, lt→leb_false,
}
use windnet_game.Prelude.Outcome.{fault, ok}
use windnet_game.Net.Buffer.{Buffer, max_buffer_size, init}
use windnet_game.Net.Buffer.Stream.{IsValid, unread}
use windnet_game.Net.Buffer.Copy.{copy_in-unread, copy_in-read}
use windnet_game.Net.Cipher.{IsBytes}
use windnet_game.Net.Packet.{head_len, packet_bytes, parse_from_buffer, parsed}
use windnet_game.Net.Packet.RoundTrip.{round_trip, serialize_sends, serialize_overruns}
use windnet_game.Bson.{Object, fields_of, object_of}
use windnet_game.Bson.Wire.{
  Call, Elements, serialize_fields, parse, parse_elements, serialize_object, to_send,
}
use windnet_game.Bson.Wire.Calls.{calls_of, elements_of, calls_of-elements_of}
use windnet_game.Bson.Wire.Received.{
  received, IsPlainMap, parse-elements_of, has_array_field, parse-array,
}

module _ (finish : List Call → List ℕ) (iterate : List ℕ → Elements) (bytes : List ℕ) where
  -- The library's document of an object.
  abbrev pub document : Object → List ℕ
  document obj = finish (serialize_fields (fields_of obj))

  -- The library reads what it has written: the iterator over the document that the calls for these
  -- elements make shows these elements.
  abbrev pub ReadsBack : Elements → Type 0
  ReadsBack es = iterate (finish (calls_of es)) ≡ es

  iterate-document :
      (obj : Object)
      → ReadsBack (elements_of (fields_of obj))
      → iterate (document obj) ≡ elements_of (fields_of obj)
  iterate-document obj h =
      ap (λ c. iterate (finish c)) (sym (calls_of-elements_of (fields_of obj))) ∙ h

  parse-document :
      (obj : Object)
      → ReadsBack (elements_of (fields_of obj))
      → IsPlainMap (fields_of obj)
      → parse iterate (document obj) ≡ ok (object_of (received (fields_of obj)))
  unfolding parse
  parse-document obj h plain =
      ap (λ es. parse_elements es []) (iterate-document obj h)
      ∙ parse-elements_of (fields_of obj) [] plain tt

  init-IsValid : length bytes ≡ max_buffer_size → IsValid (init bytes)
  unfolding init
  init-IsValid size = record { ordered = omega arith; within = omega arith; size = size }

  -- A document that is not too large stands alone in the buffer.
  serialized :
      (obj : Object)
      → length bytes ≡ max_buffer_size
      → length (document obj) < max_buffer_size
      → (s : Buffer) × (serialize_object finish (init bytes) obj ≡ some s)
        × IsValid s
        × (s.read ≡ 0)
        × (unread s ≡ document obj)
  unfolding serialize_object init
  serialized obj size small =
      let (s, e, v, same) =
        copy_in-unread (document obj) (init-IsValid size) (omega (arith, small)) in
      (
        s,
        rw (serialize_object, lt→leb_false max_buffer_size (length (document obj)) small) e,
        v,
        copy_in-read (init bytes) (document obj) (length (document obj)) s e,
        same,
      )

  -- An object without arrays and longs, with the keys in it and in the objects that it holds in the
  -- order of a std::map, whose document is bytes and leaves room for the head, is sent without fault
  -- from a buffer with an array of 8192 bytes, and a valid buffer whose unread bytes begin with what
  -- was sent gives the document, which is parsed to the object again, but for the truth values, which
  -- have become numbers; the bytes behind it stay. The library is taken to read what it writes.
  pub to_send-parse :
      (obj : Object) (r : Buffer) (rest : List ℕ)
      → length bytes ≡ max_buffer_size
      → ReadsBack (elements_of (fields_of obj))
      → IsPlainMap (fields_of obj)
      → IsBytes (document obj)
      → head_len + length (document obj) ≤ max_buffer_size
      → IsValid r
      → unread r ≡ packet_bytes (document obj) ++ rest
      → (s r' : Buffer) × (to_send finish bytes obj ≡ some s)
        × (unread s ≡ packet_bytes (document obj))
        × (parse_from_buffer r ≡ (parsed (document obj), r'))
        × (parse iterate (document obj) ≡ ok (object_of (received (fields_of obj))))
        × IsValid r'
        × (unread r' ≡ rest)
  unfolding to_send
  to_send-parse obj r rest size back plain small fits v e =
      let (s, made, v', start, same) = serialized obj size (omega (arith, fits)) in
      let (s', r', done, sent, got, w, left) =
        round_trip s r rest v' start (subst IsBytes (sym same) small)
          (omega (arith, fits, ap length same)) v
          (e ∙ ap (λ d. packet_bytes d ++ rest) (sym same)) in
      (
        s',
        r',
        rw (to_send, made) done,
        sent ∙ ap packet_bytes same,
        got ∙ ap (λ d. (parsed d, r')) same,
        parse-document obj back plain,
        w,
        left,
      )

  -- What is sent of a document that leaves no room for the head, from a buffer with an array of 8192
  -- bytes: one that is smaller than the array is copied past its end with the head, and one that has
  -- the array's size or more is left out, so that a packet without a body is sent.
  pub to_send-large :
      (obj : Object)
      → length bytes ≡ max_buffer_size
      → max_buffer_size < head_len + length (document obj)
      → ((length (document obj) < max_buffer_size) × (to_send finish bytes obj ≡ none))
        ⊎ ((max_buffer_size ≤ length (document obj))
            × (s : Buffer) × (to_send finish bytes obj ≡ some s)
            × (unread s ≡ packet_bytes []))
  unfolding to_send serialize_object init
  to_send-large obj size large = elim (Bool-cases (leb max_buffer_size (length (document obj)))) [
    | inl out ↦
        let (s', done, v', sent) =
          serialize_sends (init bytes) (init-IsValid size) refl (omega arith) in
        inr (ground (arith, out), s', rw (to_send, out) done, sent)
    | inr there ↦
        let (s, made, v, start, same) = serialized obj size (ground (arith, there)) in
        inl (
          ground (arith, there),
          rw (to_send, made) (serialize_overruns s v start (omega (arith, large, ap length same))),
        )
  ]

  -- An object with an array anywhere in it makes the receiver use an iterator that was never made.
  pub parse-document-array :
      (obj : Object)
      → ReadsBack (elements_of (fields_of obj))
      → has_array_field (fields_of obj) ≡ true
      → parse iterate (document obj) ≡ fault
  unfolding parse
  parse-document-array obj back array =
      ap (λ es. parse_elements es []) (iterate-document obj back)
      ∙ parse-array (fields_of obj) [] array
