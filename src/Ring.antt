-- ===== src/Ring.antt =====
-- ring_queue.h and ring_queue.cpp: the queue of messages between the server's threads, as
-- sequential calls. A message is the address of a `Message`; `none` is the null pointer.
pub mod Fifo
pub mod Stale
mod Tests
use windnet_game.Prelude.{
  ℕ, ◌+◌, ◌%◌, ◌^◌, Option, none, some, List, [], ◌∷◌, length, get_elem?, set, replicate,
}

-- m_queue.resize(8096, 0)
abbrev pub queue_size : ℕ
queue_size = 8096

pub record RingQueue : Type 0 where
  pub head : ℕ
  pub tail : ℕ
  pub queue : List (Option ℕ)

unfoldable pub init : RingQueue
init = record { head = 0; tail = 0; queue = replicate queue_size none }

-- __sync_fetch_and_add(&counter, 1) on a 64-bit counter
abbrev pub next : ℕ → ℕ
next counter = (counter + 1) % 2 ^ 64

pub push : RingQueue → ℕ → RingQueue
push q msg = record q {
  tail = next q.tail;
  queue = set q.queue (q.tail % length q.queue) (some msg);
}

-- What `pop` returns, from what it reads at the head.
take_message : RingQueue → Option (Option ℕ) → Option ℕ × RingQueue
take_message q (some (some msg)) = (some msg, record q { head = next q.head })
take_message q _ = (none, q)

-- The slot is read and left as it is.
pub pop : RingQueue → Option ℕ × RingQueue
unfolding take_message
pop q = take_message q (get_elem? q.queue (q.head % length q.queue))

pub data Op : Type 0 where
  pushes : ℕ → Op
  pops : Op

-- What the pops of a sequence of calls return.
pub run : RingQueue → List Op → List (Option ℕ)
run q [] = []
run q (pushes msg ∷ ops) = run (push q msg) ops
run q (pops ∷ ops) = let (r, q') = pop q in r ∷ run q' ops
