-- ===== src/Server/Served.antt =====
-- A request from the bytes of its packet to its handler, through the two threads.
use windnet_game.Prelude.{
  ℕ, suc, ◌<◌, ◌≡◌, inl, inr, refl, ap, ◌∙◌, Bool, none, some, List, [], ◌∷◌, ◌++◌, length,
  length-append, get_elem?, get_or, set, arith, if◌then◌else◌,
}
use windnet_game.Prelude.Outcome.{ok, step}
use windnet_game.Prelude.Places.{get_elem?-append_here, get_or-here}
use windnet_game.Ring.{queue_size, pop}
use windnet_game.Ring.Fifo.{push_head}
use windnet_game.Net.Buffer.Stream.{unread}
use windnet_game.Net.Cipher.{IsBytes}
use windnet_game.Net.Packet.{packet_bytes}
use windnet_game.Bson.{Object}
use windnet_game.Bson.Wire.{Elements, parse}
use windnet_game.Dispatch.{dispatch_message}
use windnet_game.World.{World}
use windnet_game.World.Requests.{Outside, do_request}
use windnet_game.Server.{Server, BsonBuffer, Reads, epoll_in, work, handle}
use windnet_game.Server.Reading.{arrived, IsFine-IsSmall}
use windnet_game.Server.Events.{Arrives, Pushed, event_parses}
use windnet_game.Server.Steps.{Reach, later, reads}
use windnet_game.Server.Worker.{NextTaken, Reach-NextTaken}

get_or-last :
    (s t : Server) (ps : ℕ) (obj : Object)
    → Pushed s ps obj t
    → get_or t.messages (length s.messages) none ≡ some (record { ps = ps; request = obj })
get_or-last s t ps obj (m, q, w) =
    get_or-here t.messages (length s.messages) none _
      (ap (λ x. get_elem? x (length s.messages)) m ∙ get_elem?-append_here s.messages [] _)

-- A worker that pops a live message handles it.
handle-live :
    (o : Outside) (t : Server) (a ps : ℕ) (obj : Object) (ret deleted : Bool) (w' : World)
    → get_or t.messages a none ≡ some (record { ps = ps; request = obj })
    → dispatch_message (do_request o ps) obj t.world ≡ ok (ret, deleted, w')
    → (u : Server) × (handle o t (some a) ≡ ok u) × (u.world ≡ w')
unfolding handle
handle-live o t a ps obj ret deleted w' live done = (
  record t { world = w'; messages = if deleted then set t.messages a none else t.messages },
  rw (handle, live) (step (dispatch_message (do_request o ps) obj t.world) _ _ _ done refl),
  refl,
)

-- The next round handles the only message that waits.
work-Pushed :
    (o : Outside) (s t : Server) (ps : ℕ) (obj : Object) (ret deleted : Bool) (w' : World)
    → Pushed s ps obj t
    → s.queue.head ≡ length s.messages
    → NextTaken t
    → dispatch_message (do_request o ps) obj s.world ≡ ok (ret, deleted, w')
    → (u : Server) × (work o t ≡ ok u) × (u.world ≡ w')
unfolding work
work-Pushed o s t ps obj ret deleted w' (m, q, same) idle (inl (all, left)) done = absurd (
    omega (
      arith,
      all,
      idle,
      ap (λ x. x.head) q,
      push_head s.queue (length s.messages),
      ap length m,
      length-append s.messages (some (record { ps = ps; request = obj }) ∷ []),
    ))
work-Pushed o s t ps obj ret deleted w' (m, q, same) idle (inr (live, first)) done =
    let at : (pop t.queue).0 ≡ some (length s.messages) =
      first ∙ ap some (ap (λ x. x.head) q ∙ push_head s.queue (length s.messages) ∙ idle) in
    let (u, e, world) =
      handle-live o (record t { queue = (pop t.queue).1 }) (length s.messages) ps obj ret deleted w'
        (get_or-last s t ps obj (m, q, same))
        (ap (dispatch_message (do_request o ps) obj) same ∙ done) in
    (u, ap (handle o (record t { queue = (pop t.queue).1 })) at ∙ e, world)

-- In a state that the server's threads reach, with fewer than 8095 messages, all of them taken, bytes
-- arrive without an error at a session whose valid buffer stays below the size of its array. When they
-- complete a packet whose document is parsed to an object, the event succeeds, and the worker's next
-- round hands exactly this object, for this session, to the dispatcher; where that returns, the round
-- succeeds and leaves the world that it gives.
pub request-served :
    (iterate : List ℕ → Elements) (w : World) (s : Server) (ps : ℕ) (buf : BsonBuffer) (got : Reads)
    (doc rest : List ℕ) (obj : Object) (o : Outside) (ret deleted : Bool) (w' : World)
    → Reach iterate w s
    → s.queue.head ≡ length s.messages
    → suc (length s.messages) < queue_size
    → Arrives iterate ps s buf got
    → IsBytes doc
    → unread buf.buffer ++ arrived got ≡ packet_bytes doc ++ rest
    → parse iterate doc ≡ ok obj
    → dispatch_message (do_request o ps) obj s.world ≡ ok (ret, deleted, w')
    → (t u : Server) × (epoll_in iterate ps got s ≡ ok t) × (work o t ≡ ok u) × (u.world ≡ w')
request-served iterate w s ps buf got doc rest obj o ret deleted w' r idle fits arrives small e e'
      done =
    let (stored, v, fine, room) = arrives in
    let (t, event, ((m, q, same), there)) =
      event_parses iterate ps s buf got doc rest obj arrives small e e' in
    let (so_far, next) =
      Reach-NextTaken iterate w t (later r (reads ps got (IsFine-IsSmall got fine) event)) (
        omega (
          arith,
          fits,
          ap length m,
          length-append s.messages (some (record { ps = ps; request = obj }) ∷ []),
        )) in
    let (u, round, world) = work-Pushed o s t ps obj ret deleted w' (m, q, same) idle next done in
    (t, u, event, round, world)
