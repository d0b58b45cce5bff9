-- ===== src/Server/Worker.antt =====
-- The messages on their way through the queue: which one the worker gets.
use windnet_game.Prelude.{
  ℕ, zero, suc, ◌+◌, ◌≤◌, ◌<◌, ◌≡◌, ◌≢◌, ◌⊎◌, inl, inr, refl, sym, ap, ◌∙◌, Bool, true, false,
  Option, none, some, List, [], ◌∷◌, ◌++◌, append-nil, length, length-append, length-set, get_elem?,
  get_elem?-set_ne, get_or, set, arith, if◌then◌else◌,
}
use windnet_game.Prelude.Outcome.{ok, need, bind-ok, step, ok-injective}
use windnet_game.Ring.{RingQueue, queue_size, pop, next}
use windnet_game.Ring.Fifo.{pop-none, pop_one}
use windnet_game.Bson.Wire.{Elements}
use windnet_game.Dispatch.{dispatch_message}
use windnet_game.World.{World}
use windnet_game.World.Requests.{Outside, do_request}
use windnet_game.Server.{Server, accept, work, handle}
use windnet_game.Server.Order.{Same, Grown, epoll_in-cases}
use windnet_game.Server.Steps.{
  Step, accepts, reads, works, Reach, here, later, as_list, taken, all_taken,
}
use windnet_game.Server.Queued.{
  from, from-suc, length-from, Live, InOrder, start-InOrder, Same-InOrder, room-suc, Grown-InOrder,
  take-InOrder,
}

-- Handling a message leaves the queue, and every other message.
abbrev Handled : ℕ → Server → Server → Type 0
Handled a s t =
    (t.queue ≡ s.queue)
    × (length t.messages ≡ length s.messages)
    × ((b : ℕ) → a ≢ b → get_elem? t.messages b ≡ get_elem? s.messages b)

deleted-Handled :
    (a : ℕ) (s t : Server) (deleted : Bool) (w : World)
    → record s { world = w; messages = if deleted then set s.messages a none else s.messages } ≡ t
    → Handled a s t
deleted-Handled a s t true w same =
    let m = ap (λ x. x.messages) (sym same) in
    (
      ap (λ x. x.queue) (sym same),
      ap length m ∙ length-set s.messages a none,
      λ b ne. ap (λ x. get_elem? x b) m ∙ get_elem?-set_ne s.messages a b none ne,
    )
deleted-Handled a s t false w same =
    let m = ap (λ x. x.messages) (sym same) in
    (ap (λ x. x.queue) (sym same), ap length m, λ b ne. ap (λ x. get_elem? x b) m)

handle-Handled : (o : Outside) (a : ℕ) (s t : Server) → handle o s (some a) ≡ ok t → Handled a s t
unfolding handle
handle-Handled o a s t e =
    let (msg, d, e₁) = bind-ok (need (get_or s.messages a none)) _ _ e in
    let ((ret, deleted, w), d₁, e₂) =
      bind-ok (dispatch_message (do_request o msg.ps) msg.request s.world) _ _ e₁ in
    deleted-Handled a s t deleted w (ok-injective _ _ e₂)

-- What a round of the worker is, by what is waiting.
work-none :
    (o : Outside) (s t : Server) (handled : ℕ)
    → InOrder s handled 0
    → length s.messages < queue_size
    → work o s ≡ ok t
    → (pop s.queue ≡ (none, s.queue)) × Same s t
unfolding work handle
work-none o s t handled i fits e =
    let (room, h) = room-suc s.queue handled 0 i.room i.holds (omega (arith, i.size, fits)) in
    let none_left = pop-none h in
    let same = ok-injective _ _ (rw none_left at e) in
    (none_left, (ap (λ x. x.messages) (sym same), ap (λ x. x.queue) (sym same)))

work-some :
    (o : Outside) (s t : Server) (handled waiting : ℕ)
    → InOrder s handled (suc waiting)
    → work o s ≡ ok t
    → ((pop s.queue).0 ≡ some handled) × InOrder t (suc handled) waiting
unfolding work
work-some o s t handled waiting i e =
    let popped = pop_one handled i.holds in
    let q : RingQueue = record (s.queue) { head = next s.queue.head } in
    let (tq, len, same) = handle-Handled o handled (record s { queue = q }) t (rw popped at e) in
    (
      ap (λ x. x.0) popped,
      take-InOrder s t handled waiting tq len (λ a l. same a (λ d. absurd (omega (arith, l, d)))) i,
    )

-- The next pop: nothing when every message was handled, or the oldest other one, which is live.
abbrev pub NextTaken : Server → Type 0
NextTaken s =
    ((s.queue.head ≡ length s.messages) × (pop s.queue ≡ (none, s.queue)))
    ⊎ (Live s.messages s.queue.head × ((pop s.queue).0 ≡ some s.queue.head))

head_handled :
    (s : Server) (handled waiting : ℕ) → InOrder s handled waiting → s.queue.head ≡ handled
head_handled s handled waiting i = i.holds.at_head ∙ length-from 0 handled

InOrder-NextTaken :
    (s : Server) (handled waiting : ℕ)
    → InOrder s handled waiting
    → length s.messages < queue_size
    → NextTaken s
InOrder-NextTaken s handled zero i fits =
    let (room, h) = room-suc s.queue handled 0 i.room i.holds (omega (arith, i.size, fits)) in
    inl (omega (arith, head_handled s handled 0 i, i.size), pop-none h)
InOrder-NextTaken s handled (suc waiting) i fits =
    let at = head_handled s handled (suc waiting) i in
    inr (
      i.live s.queue.head (omega (arith, at)) (omega (arith, at, i.size)),
      ap (λ x. x.0) (pop_one handled i.holds) ∙ ap some (sym at),
    )

-- A server whose messages are in order, and the messages that were taken.
Taken : Server → List ℕ → Type 0
Taken s log = (handled : ℕ) × (waiting : ℕ) × InOrder s handled waiting × (log ≡ from 0 handled)

length-handle :
    (o : Outside) (s t : Server) (r : Option ℕ)
    → handle o s r ≡ ok t
    → length t.messages ≡ length s.messages
unfolding handle
length-handle o s t none e = ap (λ x. length x.messages) (sym (ok-injective _ _ e))
length-handle o s t (some a) e = (handle-Handled o a s t e).1

length-work : (o : Outside) (s t : Server) → work o s ≡ ok t → length t.messages ≡ length s.messages
unfolding work
length-work o s t e = length-handle o (record s { queue = (pop s.queue).1 }) t (pop s.queue).0 e

work-Taken :
    (o : Outside) (s t : Server) (log : List ℕ)
    → work o s ≡ ok t
    → length t.messages < queue_size
    → Taken s log
    → Taken t (log ++ as_list (pop s.queue).0)
unfolding Taken
work-Taken o s t log e fits (handled, zero, i, all) =
    let (left, same) = work-none o s t handled i (omega (arith, length-work o s t e, fits)) e in
    (
      handled,
      0,
      Same-InOrder s t handled 0 same i,
      ap (λ x. log ++ as_list x.0) left ∙ append-nil log ∙ all,
    )
work-Taken o s t log e fits (handled, suc waiting, i, all) =
    let (first, after) = work-some o s t handled waiting i e in
    (
      suc handled,
      waiting,
      after,
      ap (λ x. log ++ as_list x) first
          ∙ ap (λ x. x ++ handled ∷ []) all
          ∙ sym (from-suc 0 handled ∙ ap (λ x. from 0 handled ++ x ∷ []) (omega arith)),
    )

-- A round does not shorten the list of messages, and keeps them in order.
Keeps : Server → List ℕ → Server → List ℕ → Type 0
Keeps s log t log' =
    (length s.messages ≤ length t.messages)
    × (length t.messages < queue_size → Taken s log → Taken t log')

epoll_in-Keeps : (s t : Server) (log : List ℕ) → Same s t ⊎ Grown s t → Keeps s log t (log ++ [])
unfolding Taken Keeps
epoll_in-Keeps s t log (inl (m, q)) = (
  omega (arith, ap length m),
  λ fits (handled, waiting, i, all).
      (handled, waiting, Same-InOrder s t handled waiting (m, q) i, append-nil log ∙ all),
)
epoll_in-Keeps s t log (inr (msg, m, q)) =
    let longer : length t.messages ≡ length s.messages + 1 =
      ap length m ∙ length-append s.messages (some msg ∷ []) in
    (
      omega (arith, longer),
      λ fits (handled, waiting, i, all). (
        handled,
        suc waiting,
        Grown-InOrder s t handled waiting (msg, m, q) (omega (arith, longer, fits)) i,
        append-nil log ∙ all,
      ),
    )

Step-Keeps :
    (iterate : List ℕ → Elements) (s t : Server) (log : List ℕ) (step : Step iterate s t)
    → Keeps s log t (log ++ taken step)
unfolding Keeps accept
Step-Keeps iterate s t log (accepts bytes size) = epoll_in-Keeps s t log (inl (refl, refl))
Step-Keeps iterate s t log (reads ps got small e) =
    epoll_in-Keeps s t log (epoll_in-cases iterate ps got s t e)
Step-Keeps iterate s t log (works o e) =
    (omega (arith, length-work o s t e), λ fits so_far. work-Taken o s t log e fits so_far)

Reach-Taken :
    (iterate : List ℕ → Elements) (w : World) (s : Server) (r : Reach iterate w s)
    → length s.messages < queue_size
    → Taken s (all_taken r)
unfolding Taken Keeps
Reach-Taken iterate w s here fits = (0, 0, start-InOrder w, refl)
Reach-Taken iterate w s (later {s = s'} r step) fits =
    let (longer, keeps) = Step-Keeps iterate s' s (all_taken r) step in
    keeps fits (Reach-Taken iterate w s' r (omega (arith, longer, fits)))

-- In every state that the server's threads reach with fewer than 8096 messages pushed, the worker has
-- taken the messages 0, 1, ... up to the queue's head, each once and in the order in which the
-- sessions' requests were parsed, and the next pop gives the oldest other message, which is live, or
-- nothing when all have been taken.
pub Reach-NextTaken :
    (iterate : List ℕ → Elements) (w : World) (s : Server) (r : Reach iterate w s)
    → length s.messages < queue_size
    → (all_taken r ≡ from 0 s.queue.head) × NextTaken s
unfolding Taken
Reach-NextTaken iterate w s r fits =
    let (handled, waiting, i, all) = Reach-Taken iterate w s r fits in
    (
      all ∙ ap (from 0) (sym (head_handled s handled waiting i)),
      InOrder-NextTaken s handled waiting i fits,
    )
