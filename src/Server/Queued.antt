-- ===== src/Server/Queued.antt =====
-- The messages on their way through the queue: the queue holds those not handled yet.
use mathlib.Core.Path.{subst}
use windnet_game.Prelude.{
  ℕ, zero, suc, ◌+◌, ◌≤◌, ◌<◌, ◌≡◌, inl, inr, refl, sym, ap, ◌∙◌, Option, some, List, [], ◌∷◌, ◌++◌,
  length, length-append, get_elem?, ltb, ltb→lt, ltb_false→le, arith, Bool-cases,
}
use windnet_game.Prelude.Places.{get_elem?-append_left, get_elem?-append_here}
use windnet_game.Ring.{RingQueue, queue_size, push, next}
use windnet_game.Ring.Fifo.{Holds, init-Holds, push-Holds, advance-Holds}
use windnet_game.World.{World}
use windnet_game.Server.{Server, Message}
use windnet_game.Server.Order.{Same, Grown}
use windnet_game.Server.Steps.{start}

-- n numbers from k on.
abbrev pub from : ℕ → ℕ → List ℕ
from k zero = []
from k (suc n) = k ∷ from (suc k) n

pub from-suc : (k n : ℕ) → from k (suc n) ≡ from k n ++ (k + n) ∷ []
from-suc k zero = ap (λ x. x ∷ []) (omega arith)
from-suc k (suc n) =
    ap (◌∷◌ k) (from-suc (suc k) n ∙ ap (λ x. from (suc k) n ++ x ∷ []) (omega arith))

pub length-from : (k n : ℕ) → length (from k n) ≡ n
length-from k zero = refl
length-from k (suc n) = ap suc (length-from (suc k) n)

-- The message at an address that was not deleted.
abbrev pub Live : List (Option Message) → ℕ → Type 0
Live messages a = (m : Message) × (get_elem? messages a ≡ some (some m))

append-Live : (xs ys : List (Option Message)) (a : ℕ) → Live xs a → Live (xs ++ ys) a
append-Live xs ys a (m, e) = (m, get_elem?-append_left xs ys a (some m) e)

-- The oldest `handled` messages are done with, and the others wait.
pub record InOrder (s : Server) (handled waiting : ℕ) : Type 0 where
  pub room : ℕ
  pub holds : Holds s.queue (from 0 handled) (from handled waiting) room
  pub size : handled + waiting ≡ length s.messages
  pub live : (a : ℕ) → handled ≤ a → a < length s.messages → Live s.messages a

pub start-InOrder : (w : World) → InOrder (start w) 0 0
start-InOrder w = record {
  room = queue_size;
  holds = init-Holds;
  size = refl;
  live = λ a l h. absurd (omega arith);
}

pub Same-InOrder :
    (s t : Server) (handled waiting : ℕ)
    → Same s t
    → InOrder s handled waiting
    → InOrder t handled waiting
Same-InOrder s t handled waiting (m, q) i = record {
  room = i.room;
  holds = subst (λ x. Holds x (from 0 handled) (from handled waiting) i.room) (sym q) i.holds;
  size = i.size ∙ ap length (sym m);
  live = λ a l h. subst (λ x. Live x a) (sym m) (i.live a l (omega (arith, ap length m, h)));
}

-- A queue with fewer messages than slots has room.
pub room-suc :
    (q : RingQueue) (handled waiting room : ℕ)
    → Holds q (from 0 handled) (from handled waiting) room
    → handled + waiting < queue_size
    → (room' : ℕ) × Holds q (from 0 handled) (from handled waiting) (suc room')
room-suc q handled waiting zero h fits =
    absurd (omega (arith, h.size, length-from 0 handled, length-from handled waiting))
room-suc q handled waiting (suc room) h fits = (room, h)

get_elem?-append_end :
    (xs : List (Option Message)) (m : Message) (a : ℕ)
    → length xs ≤ a
    → a < length (xs ++ some m ∷ [])
    → get_elem? (xs ++ some m ∷ []) a ≡ some (some m)
get_elem?-append_end xs m a l h =
    ap (get_elem? (xs ++ some m ∷ [])) (omega (arith, length-append xs (some m ∷ []), l, h))
    ∙ get_elem?-append_here xs [] (some m)

pub Grown-InOrder :
    (s t : Server) (handled waiting : ℕ)
    → Grown s t
    → length s.messages < queue_size
    → InOrder s handled waiting
    → InOrder t handled (suc waiting)
Grown-InOrder s t handled waiting (msg, m, q) fits i =
    let (room, h) = room-suc s.queue handled waiting i.room i.holds (omega (arith, i.size, fits)) in
    record {
      room = room;
      holds =
          subst (λ x. Holds x (from 0 handled) (from handled (suc waiting)) room) (sym q)
            (subst (λ x. Holds (push s.queue (length s.messages)) (from 0 handled) x room)
              (sym (from-suc handled waiting))
              (subst
                (λ x.
                  Holds (push s.queue (length s.messages)) (from 0 handled)
                    (from handled waiting ++ x ∷ []) room)
                (sym i.size) (push-Holds (length s.messages) h)));
      size = omega (arith, i.size, ap length m, length-append s.messages (some msg ∷ []));
      live = λ a l h. elim (Bool-cases (ltb a (length s.messages))) [
        | inl old ↦
            subst (λ x. Live x a) (sym m)
              (append-Live s.messages (some msg ∷ []) a (i.live a l (ltb→lt _ _ old)))
        | inr new ↦
            subst (λ x. Live x a) (sym m)
              (
                msg,
                get_elem?-append_end s.messages msg a (ltb_false→le _ _ new)
                    (omega (arith, ap length m, h)),
              )
      ];
    }

-- The queue behind a pop of the oldest message.
pub take-InOrder :
    (s t : Server) (handled waiting : ℕ)
    → t.queue ≡ record (s.queue) { head = next s.queue.head }
    → length t.messages ≡ length s.messages
    → ((a : ℕ) → suc handled ≤ a → get_elem? t.messages a ≡ get_elem? s.messages a)
    → InOrder s handled (suc waiting)
    → InOrder t (suc handled) waiting
take-InOrder s t handled waiting q len same i = record {
  room = i.room;
  holds =
      subst (λ x. Holds x (from 0 (suc handled)) (from (suc handled) waiting) i.room) (sym q)
        (subst
          (λ x.
            Holds (record (s.queue) { head = next s.queue.head }) x (from (suc handled) waiting)
              i.room)
          (sym (from-suc 0 handled ∙ ap (λ x. from 0 handled ++ x ∷ []) (omega arith)))
          (advance-Holds handled i.holds));
  size = omega (arith, i.size, len);
  live = λ a l h.
      let (m, e) = i.live a (omega (arith, l)) (omega (arith, h, len)) in (m, same a l ∙ e);
}
