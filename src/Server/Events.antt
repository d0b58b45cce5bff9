-- ===== src/Server/Events.antt =====
-- What an event of epoll makes of the bytes that arrive: a packet, or the beginning of one.
use windnet_game.Prelude.{
  ℕ, ◌+◌, ◌^◌, ◌≤◌, ◌<◌, ◌≡◌, ◌≢◌, ◌⊎◌, inl, inr, refl, ap, ◌∙◌, pos, true, false, some, List, [],
  ◌∷◌, ◌++◌, append_assoc, length, length-append, get_elem?, ltb, ltb→lt, ltb_false→le,
  le→ltb_false, lt→ltb, arith, Bool-cases,
}
use windnet_game.Prelude.Outcome.{ok, step}
use windnet_game.Prelude.Places.{get_elem?-set_here}
use windnet_game.Ring.{push}
use windnet_game.Net.Buffer.{Buffer, max_buffer_size, read_available}
use windnet_game.Net.Buffer.Stream.{IsValid, unread, read_available-length}
use windnet_game.Net.Cipher.{IsBytes}
use windnet_game.Net.Packet.{packet_bytes, parse_from_buffer}
use windnet_game.Net.Packet.Head.{length-packet}
use windnet_game.Net.Packet.RoundTrip.{parse_packet}
use windnet_game.Net.Packet.Refused.{partial_waits}
use windnet_game.Bson.{Object}
use windnet_game.Bson.Wire.{Elements, parse}
use windnet_game.Server.{
  Server, BsonBuffer, Reads, epoll_in, after_read, parse_next, parseable, parsed_protocol,
  with_read_buffer, push_message, read,
}
use windnet_game.Server.Reading.{arrived, IsFine, read-Receives}

-- One message of the session is pushed, and the world is left.
abbrev pub Pushed : Server → ℕ → Object → Server → Type 0
Pushed s ps request t =
    (t.messages ≡ s.messages ++ some (record { ps = ps; request = request }) ∷ [])
    × (t.queue ≡ push s.queue (length s.messages))
    × (t.world ≡ s.world)

-- What the session's buffer holds.
abbrev pub BufferHolds : Server → ℕ → Object → List ℕ → Type 0
BufferHolds s ps protocol bytes =
    (b : Buffer) × (get_elem? s.read_buffers ps ≡ some (record { buffer = b; protocol = protocol }))
    × IsValid b
    × (unread b ≡ bytes)

module _ (iterate : List ℕ → Elements) (ps : ℕ) (s : Server) (buf : BsonBuffer)
    (stored : get_elem? s.read_buffers ps ≡ some buf) where
  -- The event goes on with what was read.
  epoll_in-read :
      (got : Reads) (b : Buffer)
      → read got buf.buffer ≡ some (pos 0, b)
      → epoll_in iterate ps got s ≡ after_read iterate ps buf.protocol s (pos 0, b)
  unfolding epoll_in
  epoll_in-read got b e = rw (epoll_in, stored, e) refl

  after_read-parses :
      (b b' : Buffer) (obj : Object)
      → parseable b ≡ true
      → parsed_protocol iterate buf.protocol (parse_from_buffer b)
        ≡ ok (pos 0, record { buffer = b'; protocol = obj })
      → (t : Server) × (after_read iterate ps buf.protocol s (pos 0, b) ≡ ok t)
        × Pushed s ps obj t
        × (get_elem? t.read_buffers ps ≡ some (record { buffer = b'; protocol = obj }))
  unfolding after_read parse_next push_message
  after_read-parses b b' obj more e =
      let s₁ = with_read_buffer ps (record { buffer = b; protocol = buf.protocol }) s in
      (
        push_message ps obj (with_read_buffer ps (record { buffer = b'; protocol = obj }) s₁),
        rw (after_read, more)
            (step (parsed_protocol iterate buf.protocol (parse_from_buffer b)) _ _ _ e refl),
        (refl, refl, refl),
        get_elem?-set_here _ ps _ _ (get_elem?-set_here s.read_buffers ps _ buf stored),
      )

parseable-enough : (b : Buffer) → IsValid b → 10 ≤ length (unread b) → parseable b ≡ true
parseable-enough b v enough =
    rw (le→ltb_false (read_available b) 10 (omega (arith, enough, read_available-length v))) refl

parseable-few : (b : Buffer) → IsValid b → length (unread b) < 10 → parseable b ≡ false
parseable-few b v few =
    rw (lt→ltb (read_available b) 10 (omega (arith, few, read_available-length v))) refl

module _ (iterate : List ℕ → Elements) (ps : ℕ) (s : Server) (buf : BsonBuffer) (got : Reads) where
  -- A session with a valid buffer, for which bytes arrive without an error that leave the buffer below
  -- the size of its array.
  abbrev pub Arrives : Type 0
  Arrives =
      (get_elem? s.read_buffers ps ≡ some buf)
      × IsValid buf.buffer
      × IsFine got
      × (length (unread buf.buffer) + length (arrived got) < max_buffer_size)

  -- The event leaves this server.
  abbrev pub Event : (Server → Type 0) → Type 0
  Event P = (t : Server) × (epoll_in iterate ps got s ≡ ok t) × P t

  event-parses :
      (b b' : Buffer) (obj : Object) (bytes : List ℕ)
      → get_elem? s.read_buffers ps ≡ some buf
      → read got buf.buffer ≡ some (pos 0, b)
      → parseable b ≡ true
      → parsed_protocol iterate buf.protocol (parse_from_buffer b)
        ≡ ok (pos 0, record { buffer = b'; protocol = obj })
      → IsValid b'
      → unread b' ≡ bytes
      → Event (λ t. Pushed s ps obj t × BufferHolds t ps obj bytes)
  event-parses b b' obj bytes stored e more e' v same =
      let (t, done, pushed, there) = after_read-parses iterate ps s buf stored b b' obj more e' in
      (t, epoll_in-read iterate ps s buf stored got b e ∙ done, (pushed, (b', there, v, same)))

  -- Bytes arrive without an error at a session whose valid buffer stays below the size of its array.
  -- When its unread bytes and those that arrive begin with a packet whose document is parsed to an
  -- object, the event pushes a message of the session with this object, keeps the object, and leaves
  -- the bytes behind the packet unread: one packet is parsed, however many have arrived.
  pub event_parses :
      (doc rest : List ℕ) (obj : Object)
      → Arrives
      → IsBytes doc
      → unread buf.buffer ++ arrived got ≡ packet_bytes doc ++ rest
      → parse iterate doc ≡ ok obj
      → Event (λ t. Pushed s ps obj t × BufferHolds t ps obj rest)
  event_parses doc rest obj (stored, v, fine, fits) small e e' =
      let (b, r, w, all) = read-Receives got buf.buffer v fine fits in
      let (b', p, w', left) = parse_packet b doc rest w small (all ∙ e) in
      event-parses b b' obj rest stored r
        (parseable-enough b w (
          omega
            (arith, ap length (all ∙ e), length-append (packet_bytes doc) rest, length-packet doc)))
        (rw (p, e') refl) w' left

  -- Bytes arrive without an error at a session whose valid buffer stays below the size of its array.
  -- When its unread bytes and those that arrive are a proper part of a packet, nothing is pushed as
  -- long as they are fewer than ten. From ten on, the event pushes the session's previous request again. The
  -- bytes stay unread in both cases.
  pub event_partial :
      (body more : List ℕ)
      → Arrives
      → length body < 2 ^ 32
      → unread buf.buffer ++ (arrived got ++ more) ≡ packet_bytes body
      → more ≢ []
      → Event (λ t.
        (((length (unread buf.buffer ++ arrived got) < 10)
            × (t.messages ≡ s.messages)
            × (t.queue ≡ s.queue)
            × (t.world ≡ s.world))
          ⊎ ((10 ≤ length (unread buf.buffer ++ arrived got)) × Pushed s ps buf.protocol t))
        × BufferHolds t ps buf.protocol (unread buf.buffer ++ arrived got))
  unfolding after_read
  event_partial body more (stored, v, fine, fits) small e missing =
      let (b, r, w, all) = read-Receives got buf.buffer v fine fits in
      elim (Bool-cases (ltb (length (unread b)) 10)) [
        | inl few ↦ (
          with_read_buffer ps (record { buffer = b; protocol = buf.protocol }) s,
          epoll_in-read iterate ps s buf stored got b r
              ∙ rw (after_read, parseable-few b w (ltb→lt _ _ few)) refl,
          (
            inl (omega (arith, ltb→lt _ _ few, ap length all), refl, refl, refl),
            (b, get_elem?-set_here s.read_buffers ps _ buf stored, w, all),
          ),
        )
        | inr enough ↦
            let p =
              partial_waits b body more w small
                (ap (λ x. x ++ more) all ∙ append_assoc (unread buf.buffer) (arrived got) more ∙ e)
                missing in
            let (t, done, (pushed, there)) =
              event-parses b b buf.protocol (unread buf.buffer ++ arrived got) stored r
                (parseable-enough b w (ltb_false→le _ _ enough)) (rw p refl) w all in
            (t, done, (inr (omega (arith, ltb_false→le _ _ enough, ap length all), pushed), there))
      ]
