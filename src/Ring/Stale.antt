-- ===== src/Ring/Stale.antt =====
-- What ring_queue.cpp gives once every slot has been used: `pop` leaves its slot filled, so an empty
-- queue gives old messages again.
use windnet_game.Prelude.{
  ℕ, zero, suc, ◌%◌, ◌≡◌, refl, ap, some, List, [], ◌∷◌, ◌++◌, append_assoc, append-nil, map,
  length, get_elem?, replicate, arith,
}
use windnet_game.Ring.{RingQueue, queue_size, init, pop, take_message, Op, pushes, pops, run}
use windnet_game.Ring.Fifo.{Holds, init-Holds, push-Holds, pop_one, advance-Holds, length_slots}

run_pushes :
    (xs : List ℕ) {q : RingQueue} {done waiting : List ℕ} {room : ℕ} (ops : List Op)
    → room ≡ length xs
    → Holds q done waiting room
    → (q' : RingQueue) × (run q (map pushes xs ++ ops) ≡ run q' ops)
      × Holds q' done (waiting ++ xs) 0
unfolding run
run_pushes [] {q} {done} {waiting} {room = zero} ops e h = (q, refl, rw (append-nil waiting) h)
run_pushes [] {room = suc room} ops e h = absurd (omega arith)
run_pushes (x ∷ xs) {room = zero} ops e h = absurd (omega arith)
run_pushes (x ∷ xs) {q} {done} {waiting} {room = suc room} ops e h =
    let (q', r, h') = run_pushes xs ops (omega arith) (push-Holds x h) in
    (q', r, rw (append_assoc waiting (x ∷ []) xs) at h')

run_pops :
    (xs : List ℕ) {q : RingQueue} {done : List ℕ} (ops : List Op)
    → Holds q done xs 0
    → (q' : RingQueue) × (run q (replicate (length xs) pops ++ ops) ≡ map some xs ++ run q' ops)
      × Holds q' (done ++ xs) [] 0
unfolding run
run_pops [] {q} {done} ops h = (q, refl, rw (append-nil done) h)
run_pops (x ∷ xs) {q} {done} ops h =
    let (q', r, h') = run_pops xs ops (advance-Holds x h) in
    (q', rw (pop_one x h) (ap (◌∷◌ (some x)) r), rw (append_assoc done (x ∷ []) xs) at h')

pop_used : (x : ℕ) (xs : List ℕ) {q : RingQueue} → Holds q (x ∷ xs) [] 0 → (pop q).0 ≡ some x
unfolding pop take_message
pop_used x xs {q} h = rw (index h) (rw (ap (λ s. get_elem? s 0) h.slots, take_message))
  where
    index : Holds q (x ∷ xs) [] 0 → q.head % length q.queue ≡ 0
    index h = ground (arith, length_slots h, h.at_head, h.size)

-- Once as many messages were pushed as there are slots, and all were popped, one more `pop` on the
-- empty queue returns the first message again.
pub run_repeats :
    (x : ℕ) (xs : List ℕ)
    → length (x ∷ xs) ≡ queue_size
    → run init (map pushes (x ∷ xs) ++ (replicate (length (x ∷ xs)) pops ++ pops ∷ []))
      ≡ map some (x ∷ xs) ++ some x ∷ []
unfolding run
run_repeats x xs e =
    let (q, r, h) =
      run_pushes (x ∷ xs) (replicate (length (x ∷ xs)) pops ++ pops ∷ []) (rw e) init-Holds in
    let (q', r', h') = run_pops (x ∷ xs) (pops ∷ []) h in rw (r, r', pop_used x xs h')
