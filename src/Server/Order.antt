-- ===== src/Server/Order.antt =====
-- What a round of epollRoutine does to the queue of messages.
use windnet_game.Prelude.{
  ℕ, ◌≡◌, ◌⊎◌, inl, inr, sym, ap, ◌∙◌, ℤ, negsuc, ◌==ℤ◌, some, List, [], ◌∷◌, ◌++◌, length,
  get_elem?, Bool-cases, if◌then◌else◌,
}
use windnet_game.Prelude.Outcome.{ok, need, bind-ok, ok-injective}
use windnet_game.Ring.{push}
use windnet_game.Net.Buffer.{Buffer}
use windnet_game.Net.Packet.{parse_from_buffer}
use windnet_game.Bson.{Object}
use windnet_game.Bson.Wire.{Elements}
use windnet_game.Scene.{player_offline}
use windnet_game.Server.{
  Server, Message, BsonBuffer, Reads, epoll_in, after_read, after_parse, parse_next, parseable,
  parsed_protocol, with_read_buffer, close, push_message, read,
}

-- Nothing is pushed.
abbrev pub Same : Server → Server → Type 0
Same s t = (t.messages ≡ s.messages) × (t.queue ≡ s.queue)

-- One message is pushed.
abbrev pub Grown : Server → Server → Type 0
Grown s t =
    (m : Message) × (t.messages ≡ s.messages ++ some m ∷ [])
    × (t.queue ≡ push s.queue (length s.messages))

close-Same : (ps : ℕ) (s t : Server) → close ps s ≡ ok t → Same s t
unfolding close
close-Same ps s t e =
    let (w, d, e₁) = bind-ok (player_offline ps s.world) _ _ e in
    let same = ok-injective _ _ e₁ in
    (ap (λ x. x.messages) (sym same), ap (λ x. x.queue) (sym same))

after_parse-cases :
    (ps : ℕ) (s t : Server) (r : ℤ × BsonBuffer) → after_parse ps s r ≡ ok t → Same s t ⊎ Grown s t
unfolding push_message
after_parse-cases ps s t (ret, buf) e = elim (Bool-cases (ret ==ℤ negsuc 0)) [
  | inl bad ↦ inl (close-Same ps (with_read_buffer ps buf s) t (rw bad at e))
  | inr good ↦
      let same = ok-injective _ _ (rw good at e) in
      inr (
        record { ps = ps; request = buf.protocol },
        ap (λ x. x.messages) (sym same),
        ap (λ x. x.queue) (sym same),
      )
]

maybe_close-Same :
    (ps : ℕ) (ret : ℤ) (s t : Server)
    → (if ret ==ℤ negsuc 0 then close ps s else ok s) ≡ ok t
    → Same s t
maybe_close-Same ps ret s t e = elim (Bool-cases (ret ==ℤ negsuc 0)) [
  | inl bad ↦ close-Same ps s t (rw bad at e)
  | inr good ↦
      let same = ok-injective _ _ (rw good at e) in
      (ap (λ x. x.messages) (sym same), ap (λ x. x.queue) (sym same))
]

Same-cases : (s t u : Server) → Same s t → Same t u ⊎ Grown t u → Same s u ⊎ Grown s u
Same-cases s t u (m, q) (inl (m', q')) = inl (m' ∙ m, q' ∙ q)
Same-cases s t u (m, q) (inr (msg, m', q')) = inr (
  msg,
  m' ∙ ap (λ x. x ++ some msg ∷ []) m,
  q' ∙ ap (λ x. push x (length t.messages)) q ∙ ap (λ x. push s.queue (length x)) m,
)

parse_next-cases :
    (iterate : List ℕ → Elements) (ps : ℕ) (old : Object) (b : Buffer) (s t : Server)
    → parse_next iterate ps old b s ≡ ok t
    → Same s t ⊎ Grown s t
unfolding parse_next
parse_next-cases iterate ps old b s t e =
    let (r, d, e') = bind-ok (parsed_protocol iterate old (parse_from_buffer b)) _ _ e in
    after_parse-cases ps s t r e'

maybe_parse-cases :
    (iterate : List ℕ → Elements) (ps : ℕ) (old : Object) (b : Buffer) (s t : Server)
    → (if parseable b then parse_next iterate ps old b s else ok s) ≡ ok t
    → Same s t ⊎ Grown s t
maybe_parse-cases iterate ps old b s t e = elim (Bool-cases (parseable b)) [
  | inl more ↦ parse_next-cases iterate ps old b s t (rw more at e)
  | inr done ↦
      let same = ok-injective _ _ (rw done at e) in
      inl (ap (λ x. x.messages) (sym same), ap (λ x. x.queue) (sym same))
]

after_read-cases :
    (iterate : List ℕ → Elements) (ps : ℕ) (old : Object) (s t : Server) (ret : ℤ) (b : Buffer)
    → after_read iterate ps old s (ret, b) ≡ ok t
    → Same s t ⊎ Grown s t
unfolding after_read
after_read-cases iterate ps old s t ret b e =
    let s₁ : Server = with_read_buffer ps (record { buffer = b; protocol = old }) s in
    let (s₂, d, e') = bind-ok (if ret ==ℤ negsuc 0 then close ps s₁ else ok s₁) _ _ e in
    Same-cases s s₂ t (maybe_close-Same ps ret s₁ s₂ d) (maybe_parse-cases iterate ps old b s₂ t e')

-- An event pushes one message at most.
pub epoll_in-cases :
    (iterate : List ℕ → Elements) (ps : ℕ) (got : Reads) (s t : Server)
    → epoll_in iterate ps got s ≡ ok t
    → Same s t ⊎ Grown s t
unfolding epoll_in
epoll_in-cases iterate ps got s t e =
    let (buf, d, e₁) = bind-ok (need (get_elem? s.read_buffers ps)) _ _ e in
    let ((ret, b), d₁, e₂) = bind-ok (need (read got buf.buffer)) _ _ e₁ in
    after_read-cases iterate ps buf.protocol s t ret b e₂
