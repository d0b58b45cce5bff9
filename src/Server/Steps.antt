-- ===== src/Server/Steps.antt =====
-- The rounds of the server's threads, in whatever order, from a server without sessions.
use windnet_game.Prelude.{ℕ, ◌≡◌, Option, none, some, List, [], ◌∷◌, ◌++◌, length}
use windnet_game.Prelude.Outcome.{ok}
use windnet_game.Ring
use windnet_game.Ring.{pop}
use windnet_game.Bson.Wire.{Elements}
use windnet_game.Net.Buffer.{max_buffer_size}
use windnet_game.World.{World}
use windnet_game.World.Requests.{Outside}
use windnet_game.Server.Reading.{IsSmall}
use windnet_game.Server.{Server, Reads, accept, epoll_in, work}

-- One round that does not fault; the environment chooses what is read, and what a handler meets.
pub data Step (iterate : List ℕ → Elements) (s : Server) : Server → Type 0 where
  accepts : (bytes : List ℕ) → length bytes ≡ max_buffer_size → Step iterate s (accept bytes s)
  reads :
      {t : Server} (ps : ℕ) (got : Reads)
      → IsSmall got
      → epoll_in iterate ps got s ≡ ok t
      → Step iterate s t
  works : {t : Server} (o : Outside) → work o s ≡ ok t → Step iterate s t

abbrev pub start : World → Server
start w = record {
  world = record w { sessions = [] };
  read_buffers = [];
  messages = [];
  queue = Ring.init;
}

pub data Reach (iterate : List ℕ → Elements) (w : World) : Server → Type 0 where
  here : Reach iterate w (start w)
  later : {s t : Server} → Reach iterate w s → Step iterate s t → Reach iterate w t

-- The message that a round takes out of the queue.
abbrev pub as_list : Option ℕ → List ℕ
as_list none = []
as_list (some a) = a ∷ []

abbrev pub taken : {iterate : List ℕ → Elements} {s t : Server} → Step iterate s t → List ℕ
taken {s = s} (works o e) = as_list (pop s.queue).0
taken _ = []

-- The messages that the worker has taken, oldest first.
abbrev pub all_taken :
    {iterate : List ℕ → Elements} {w : World} {s : Server} → Reach iterate w s → List ℕ
all_taken here = []
all_taken (later r step) = all_taken r ++ taken step
