-- ===== src/Ring/Fifo.antt =====
-- The ring queue against a plain first-in-first-out queue of messages.
use windnet_game.Prelude.{
  ℕ, zero, suc, ◌+◌, ◌%◌, ◌<◌, ◌≡◌, refl, ap, Option, none, some, List, [], ◌∷◌, ◌++◌, append_assoc,
  map, length, length-append, length-map, get_elem?, set, replicate, length-replicate, arith,
}
use windnet_game.Ring.{
  RingQueue, queue_size, init, next, push, pop, take_message, Op, pushes, pops, run,
}

-- Oldest first.
unfoldable pub run_fifo : List ℕ → List Op → List (Option ℕ)
run_fifo waiting [] = []
run_fifo waiting (pushes msg ∷ ops) = run_fifo (waiting ++ msg ∷ []) ops
run_fifo [] (pops ∷ ops) = none ∷ run_fifo [] ops
run_fifo (msg ∷ waiting) (pops ∷ ops) = some msg ∷ run_fifo waiting ops

abbrev pub pushed : List Op → ℕ
pushed [] = 0
pushed (pushes msg ∷ ops) = suc (pushed ops)
pushed (pops ∷ ops) = pushed ops

-- The queue after `done` was pushed and popped and `waiting` pushed, before it is full.
pub record Holds (q : RingQueue) (done waiting : List ℕ) (room : ℕ) : Type 0 where
  pub slots : q.queue ≡ map some (done ++ waiting) ++ replicate room none
  pub at_head : q.head ≡ length done
  pub at_tail : q.tail ≡ length done + length waiting
  pub size : length done + length waiting + room ≡ queue_size

pub init-Holds : Holds init [] [] queue_size
unfolding init
init-Holds = record { slots = refl; at_head = refl; at_tail = refl; size = refl }

set-append :
    (xs : List ℕ) (n : ℕ) (msg : ℕ)
    → set (map some xs ++ replicate (suc n) none) (length xs) (some msg)
      ≡ map some (xs ++ msg ∷ []) ++ replicate n none
set-append [] n msg = refl
set-append (x ∷ xs) n msg = ap (◌∷◌ (some x)) (set-append xs n msg)

get_waiting :
    (done : List ℕ) (msg : ℕ) (waiting : List ℕ) (rest : List (Option ℕ))
    → get_elem? (map some (done ++ msg ∷ waiting) ++ rest) (length done) ≡ some (some msg)
get_waiting [] msg waiting rest = refl
get_waiting (x ∷ done) msg waiting rest = get_waiting done msg waiting rest

get_room :
    (done : List ℕ) (n : ℕ)
    → get_elem? (map some (done ++ []) ++ replicate (suc n) none) (length done) ≡ some none
get_room [] n = refl
get_room (x ∷ done) n = get_room done n

module _ {q : RingQueue} {done waiting : List ℕ} where
  pub length_slots : {room : ℕ} → Holds q done waiting room → length q.queue ≡ queue_size
  length_slots {room} h = omega (
    arith,
    ap length h.slots,
    length-append (map some (done ++ waiting)) (replicate room none),
    length-map {0, 0} some (done ++ waiting),
    length-append done waiting,
    length-replicate {0} {A = Option ℕ} room none,
    h.size,
  )

  tail_index :
      {room : ℕ}
      → Holds q done waiting (suc room)
      → q.tail % length q.queue ≡ length done + length waiting
  tail_index h = ground (arith, length_slots h, h.at_tail, h.size)

  head_index : {room : ℕ} → Holds q done waiting (suc room) → q.head % length q.queue ≡ length done
  head_index h = ground (arith, length_slots h, h.at_head, h.size)

pub push-Holds :
    {q : RingQueue} {done waiting : List ℕ} {room : ℕ} (msg : ℕ)
    → Holds q done waiting (suc room)
    → Holds (push q msg) done (waiting ++ msg ∷ []) room
unfolding push
push-Holds {q} {done} {waiting} {room} msg h = record {
  slots =
      rw (tail_index h, h.slots, ← append_assoc done waiting (msg ∷ []))
        (rw (← length-append done waiting) (set-append (done ++ waiting) room msg));
  at_head = h.at_head;
  at_tail = omega (arith, h.at_tail, h.size, length-append waiting (msg ∷ []));
  size = omega (arith, h.size, length-append waiting (msg ∷ []));
}

pub push_head : (q : RingQueue) (msg : ℕ) → (push q msg).head ≡ q.head
unfolding push
push_head q msg = refl

pub pop_one :
    {q : RingQueue} {done waiting : List ℕ} {room : ℕ} (msg : ℕ)
    → Holds q done (msg ∷ waiting) room
    → pop q ≡ (some msg, record q { head = next q.head })
unfolding pop take_message
pop_one {q} {done} {waiting} {room} msg h = rw (index h) (
    rw (
      ap (λ s. get_elem? s (length done)) h.slots,
      get_waiting done msg waiting (replicate room none),
      take_message,
    ))
  where
    index : Holds q done (msg ∷ waiting) room → q.head % length q.queue ≡ length done
    index h = ground (arith, length_slots h, h.at_head, h.size)

pub pop-none :
    {q : RingQueue} {done : List ℕ} {room : ℕ} → Holds q done [] (suc room) → pop q ≡ (none, q)
unfolding pop take_message
pop-none {q} {done} {room} h =
    rw (head_index h)
      (rw (ap (λ s. get_elem? s (length done)) h.slots, get_room done room, take_message))

pub advance-Holds :
    {q : RingQueue} {done waiting : List ℕ} {room : ℕ} (msg : ℕ)
    → Holds q done (msg ∷ waiting) room
    → Holds (record q { head = next q.head }) (done ++ msg ∷ []) waiting room
advance-Holds {q} {done} {waiting} {room} msg h = record {
  slots = rw (append_assoc done (msg ∷ []) waiting) h.slots;
  at_head = omega (arith, h.at_head, h.size, length-append done (msg ∷ []));
  at_tail = omega (arith, h.at_tail, h.size, length-append done (msg ∷ []));
  size = omega (arith, h.size, length-append done (msg ∷ []));
}

run_holding :
    (ops : List Op) {q : RingQueue} {done waiting : List ℕ} {room : ℕ}
    → Holds q done waiting room
    → pushed ops < room
    → run q ops ≡ run_fifo waiting ops
unfolding run run_fifo
run_holding [] h fits = refl
run_holding (pushes msg ∷ ops) {room = zero} h fits = absurd (omega arith)
run_holding (pushes msg ∷ ops) {room = suc room} h fits =
    run_holding ops (push-Holds msg h) (omega arith)
run_holding (pops ∷ ops) {room = zero} h fits = absurd (omega arith)
run_holding (pops ∷ ops) {waiting = []} {room = suc room} h fits =
    rw (pop-none h) (ap (◌∷◌ none) (run_holding ops h fits))
run_holding (pops ∷ ops) {waiting = msg ∷ waiting} {room = suc room} h fits =
    rw (pop_one msg h) (ap (◌∷◌ (some msg)) (run_holding ops (advance-Holds msg h) fits))

-- From the constructor on, any sequence of calls with fewer pushes than the queue has slots gives
-- what a first-in-first-out queue gives: nothing is lost, repeated or reordered.
pub run_refines : (ops : List Op) → pushed ops < queue_size → run init ops ≡ run_fifo [] ops
run_refines ops fits = run_holding ops init-Holds fits
