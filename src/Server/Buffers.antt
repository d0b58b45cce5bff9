-- ===== src/Server/Buffers.antt =====
-- The sessions' buffers, through all rounds.
use mathlib.Core.Option.{some-injective, some-ne-none}
use mathlib.Core.Path.{subst}
use windnet_game.Prelude.{
  ℕ, zero, suc, ◌≡◌, inl, inr, sym, ap, ◌∙◌, ℤ, negsuc, ◌==ℤ◌, Option, none, some, List, [], ◌∷◌,
  ◌++◌, length, get_elem?, get_or, set, arith, Bool-cases, if◌then◌else◌,
}
use windnet_game.Prelude.Outcome.{ok, need, bind-ok, ok-injective, need-ok}
use windnet_game.Prelude.Places.{get_elem?-set}
use windnet_game.Ring.{pop}
use windnet_game.Net.Buffer.{Buffer, max_buffer_size, init}
use windnet_game.Net.Buffer.Stream.{IsValid}
use windnet_game.Net.Packet.{Outcome as Parsing, wait, invalid, crash, parsed, parse_from_buffer}
use windnet_game.Net.Packet.Bounds.{parse_from_buffer-IsValid}
use windnet_game.Bson.{Object}
use windnet_game.Bson.Wire.{Elements, parse}
use windnet_game.Scene.{player_offline}
use windnet_game.World.{World}
use windnet_game.World.Requests.{Outside, do_request}
use windnet_game.Dispatch.{dispatch_message}
use windnet_game.Server.{
  Server, BsonBuffer, Reads, accept, epoll_in, after_read, after_parse, parse_next, parseable,
  parsed_protocol, caught_protocol, with_read_buffer, close, push_message, read, work, handle,
}
use windnet_game.Server.Reading.{IsSmall, read-IsValid}
use windnet_game.Server.Steps.{Step, accepts, reads, works, Reach, here, later}

-- The buffer of every session is valid.
abbrev pub AllValid : List BsonBuffer → Type 0
AllValid bufs = (ps : ℕ) (buf : BsonBuffer) → get_elem? bufs ps ≡ some buf → IsValid buf.buffer

set-AllValid :
    (bufs : List BsonBuffer) (ps : ℕ) (buf : BsonBuffer)
    → AllValid bufs
    → IsValid buf.buffer
    → AllValid (set bufs ps buf)
set-AllValid bufs ps buf all v j c e = elim (get_elem?-set bufs ps buf j c e) [
  | inl (at, same) ↦ subst (λ x. IsValid x.buffer) (sym same) v
  | inr (ne, old) ↦ all j c old
]

append-AllValid :
    (bufs : List BsonBuffer) (buf : BsonBuffer)
    → AllValid bufs
    → IsValid buf.buffer
    → AllValid (bufs ++ buf ∷ [])
append-AllValid [] buf all v zero c e = subst (λ x. IsValid x.buffer) (some-injective _ _ e) v
append-AllValid [] buf all v (suc j) c e = absurd (some-ne-none c (sym e))
append-AllValid (x ∷ bufs) buf all v zero c e = all zero c e
append-AllValid (x ∷ bufs) buf all v (suc j) c e =
    append-AllValid bufs buf (λ i. all (suc i)) v j c e

init-IsValid : (bytes : List ℕ) → length bytes ≡ max_buffer_size → IsValid (init bytes)
unfolding init
init-IsValid bytes size = record { ordered = omega arith; within = omega arith; size = size }

close-read_buffers : (ps : ℕ) (s t : Server) → close ps s ≡ ok t → t.read_buffers ≡ s.read_buffers
unfolding close
close-read_buffers ps s t e =
    let (w, d, e₁) = bind-ok (player_offline ps s.world) _ _ e in
    ap (λ x. x.read_buffers) (sym (ok-injective _ _ e₁))

close-AllValid :
    (ps : ℕ) (s t : Server) → close ps s ≡ ok t → AllValid s.read_buffers → AllValid t.read_buffers
close-AllValid ps s t e all = subst AllValid (sym (close-read_buffers ps s t e)) all

-- What is parsed leaves the buffer as parseFromBuffer does.
parsed_protocol-buffer :
    (iterate : List ℕ → Elements) (old : Object) (p : Parsing) (b : Buffer) (r : ℤ)
    (buf : BsonBuffer)
    → parsed_protocol iterate old (p, b) ≡ ok (r, buf)
    → buf.buffer ≡ b
parsed_protocol-buffer iterate old wait b r buf e = ap (λ x. x.1.buffer) (sym (ok-injective _ _ e))
parsed_protocol-buffer iterate old invalid b r buf e =
    ap (λ x. x.1.buffer) (sym (ok-injective _ _ e))
parsed_protocol-buffer iterate old crash b r buf e = absurd cc
parsed_protocol-buffer iterate old (parsed doc) b r buf e =
    let (obj, d, e₁) = bind-ok (caught_protocol old (parse iterate doc)) _ _ e in
    ap (λ x. x.1.buffer) (sym (ok-injective _ _ e₁))

after_parse-AllValid :
    (ps : ℕ) (s t : Server) (r : ℤ) (buf : BsonBuffer)
    → after_parse ps s (r, buf) ≡ ok t
    → AllValid s.read_buffers
    → IsValid buf.buffer
    → AllValid t.read_buffers
unfolding push_message
after_parse-AllValid ps s t r buf e all v =
    let new = set-AllValid s.read_buffers ps buf all v in
    elim (Bool-cases (r ==ℤ negsuc 0)) [
      | inl bad ↦ close-AllValid ps (with_read_buffer ps buf s) t (rw bad at e) new
      | inr good ↦ subst AllValid (ap (λ x. x.read_buffers) (ok-injective _ _ (rw good at e))) new
    ]

parse_next-AllValid :
    (iterate : List ℕ → Elements) (ps : ℕ) (old : Object) (b : Buffer) (s t : Server)
    → parse_next iterate ps old b s ≡ ok t
    → AllValid s.read_buffers
    → IsValid b
    → AllValid t.read_buffers
unfolding parse_next
parse_next-AllValid iterate ps old b s t e all v =
    let ((r, buf), d, e₁) = bind-ok (parsed_protocol iterate old (parse_from_buffer b)) _ _ e in
    let same =
      parsed_protocol-buffer iterate old (parse_from_buffer b).0 (parse_from_buffer b).1 r buf d in
    after_parse-AllValid ps s t r buf e₁ all
      (subst IsValid (sym same) (parse_from_buffer-IsValid b v))

maybe_parse-AllValid :
    (iterate : List ℕ → Elements) (ps : ℕ) (old : Object) (b : Buffer) (s t : Server)
    → (if parseable b then parse_next iterate ps old b s else ok s) ≡ ok t
    → AllValid s.read_buffers
    → IsValid b
    → AllValid t.read_buffers
maybe_parse-AllValid iterate ps old b s t e all v = elim (Bool-cases (parseable b)) [
  | inl more ↦ parse_next-AllValid iterate ps old b s t (rw more at e) all v
  | inr done ↦ subst AllValid (ap (λ x. x.read_buffers) (ok-injective _ _ (rw done at e))) all
]

maybe_close-AllValid :
    (ps : ℕ) (ret : ℤ) (s t : Server)
    → (if ret ==ℤ negsuc 0 then close ps s else ok s) ≡ ok t
    → AllValid s.read_buffers
    → AllValid t.read_buffers
maybe_close-AllValid ps ret s t e all = elim (Bool-cases (ret ==ℤ negsuc 0)) [
  | inl bad ↦ close-AllValid ps s t (rw bad at e) all
  | inr good ↦ subst AllValid (ap (λ x. x.read_buffers) (ok-injective _ _ (rw good at e))) all
]

after_read-AllValid :
    (iterate : List ℕ → Elements) (ps : ℕ) (old : Object) (s t : Server) (ret : ℤ) (b : Buffer)
    → after_read iterate ps old s (ret, b) ≡ ok t
    → AllValid s.read_buffers
    → IsValid b
    → AllValid t.read_buffers
unfolding after_read
after_read-AllValid iterate ps old s t ret b e all v =
    let s₁ : Server = with_read_buffer ps (record { buffer = b; protocol = old }) s in
    let (s₂, d, e') = bind-ok (if ret ==ℤ negsuc 0 then close ps s₁ else ok s₁) _ _ e in
    maybe_parse-AllValid iterate ps old b s₂ t e'
      (maybe_close-AllValid ps ret s₁ s₂ d (set-AllValid s.read_buffers ps _ all v)) v

epoll_in-AllValid :
    (iterate : List ℕ → Elements) (ps : ℕ) (got : Reads) (s t : Server)
    → IsSmall got
    → epoll_in iterate ps got s ≡ ok t
    → AllValid s.read_buffers
    → AllValid t.read_buffers
unfolding epoll_in
epoll_in-AllValid iterate ps got s t small e all =
    let (buf, d, e₁) = bind-ok (need (get_elem? s.read_buffers ps)) _ _ e in
    let ((ret, b), d₁, e₂) = bind-ok (need (read got buf.buffer)) _ _ e₁ in
    let (r, b', e₃, w) = read-IsValid got buf.buffer (all ps buf (need-ok _ _ d)) small in
    let same = ap (λ x. x.1) (some-injective _ _ (sym e₃ ∙ need-ok _ _ d₁)) in
    after_read-AllValid iterate ps buf.protocol s t ret b e₂ all (subst IsValid same w)

handle-read_buffers :
    (o : Outside) (s t : Server) (r : Option ℕ)
    → handle o s r ≡ ok t
    → t.read_buffers ≡ s.read_buffers
unfolding handle
handle-read_buffers o s t none e = ap (λ x. x.read_buffers) (sym (ok-injective _ _ e))
handle-read_buffers o s t (some a) e =
    let (msg, d, e₁) = bind-ok (need (get_or s.messages a none)) _ _ e in
    let ((ret, deleted, w), d₁, e₂) =
      bind-ok (dispatch_message (do_request o msg.ps) msg.request s.world) _ _ e₁ in
    ap (λ x. x.read_buffers) (sym (ok-injective _ _ e₂))

Step-AllValid :
    (iterate : List ℕ → Elements) (s t : Server)
    → Step iterate s t
    → AllValid s.read_buffers
    → AllValid t.read_buffers
unfolding accept work
Step-AllValid iterate s t (accepts bytes size) all =
    append-AllValid s.read_buffers _ all (init-IsValid bytes size)
Step-AllValid iterate s t (reads ps got small e) all =
    epoll_in-AllValid iterate ps got s t small e all
Step-AllValid iterate s t (works o e) all =
    subst AllValid
      (sym (handle-read_buffers o (record s { queue = (pop s.queue).1 }) t (pop s.queue).0 e)) all

Reach-AllValid :
    (iterate : List ℕ → Elements) (w : World) (s : Server)
    → Reach iterate w s
    → AllValid s.read_buffers
Reach-AllValid iterate w s here = λ ps buf e. absurd (some-ne-none buf (sym e))
Reach-AllValid iterate w s (later {s = s'} r step) =
    Step-AllValid iterate s' s step (Reach-AllValid iterate w s' r)

-- In every state that the server's threads reach, the buffer of every session is valid, and whatever
-- its socket gives, in blocks of at most 2048 bytes, is read without a write past the buffer's array.
pub Reach-read :
    (iterate : List ℕ → Elements) (w : World) (s : Server) (ps : ℕ) (buf : BsonBuffer) (got : Reads)
    → Reach iterate w s
    → get_elem? s.read_buffers ps ≡ some buf
    → IsSmall got
    → IsValid buf.buffer
      × ((r : ℤ) × (b : Buffer) × (read got buf.buffer ≡ some (r, b)) × IsValid b)
Reach-read iterate w s ps buf got reach stored small =
    let v = Reach-AllValid iterate w s reach ps buf stored in
    (v, read-IsValid got buf.buffer v small)
