-- ===== src/Server.antt =====
-- The server's loops: Socket::read of socket.cpp, EpollServer::epollRoutine of epoll_server.cpp,
-- SocketServer::socketAcceptRoutine of socket_server.cpp and WorkThread::threadRoutine of thread.cpp.
-- One round of a loop is a function on the state that the threads share.
pub mod Steps
pub mod Order
pub mod Queued
pub mod Worker
pub mod Reading
pub mod Events
pub mod Served
pub mod Buffers
mod Tests
use windnet_game.Prelude.{
  ℕ, ℤ, pos, negsuc, ◌==ℤ◌, Bool, true, false, not, Option, none, some, List, [], ◌∷◌, ◌++◌, length,
  get_elem?, get_or, set, ltb, ◌==◌, if◌then◌else◌,
}
use windnet_game.Prelude.Outcome.{Outcome, fault, thrown, ok, need, ◌>>=◌}
use windnet_game.Ring.{RingQueue, push, pop}
use windnet_game.Net.Buffer.{Buffer, init, read_available, add}
use windnet_game.Net.Packet.{parse_from_buffer, wait, invalid, crash, parsed}
use windnet_game.Net.Packet.{Outcome as Parsing}
use windnet_game.Bson.{Object}
use windnet_game.Bson.Wire.{Elements, parse}
use windnet_game.Dispatch.{dispatch_message}
use windnet_game.World.{World}
use windnet_game.World.Requests.{Outside, do_request}
use windnet_game.Scene.{player_offline}

-- A Message, with its session's address.
pub record Message : Type 0 where
  pub ps : ℕ
  pub request : Object

-- A BsonBuffer: the buffer, and m_protocol, the last object that was parsed.
pub record BsonBuffer : Type 0 where
  pub buffer : Buffer
  pub protocol : Object

-- What the threads share. The sessions of the world are those of `read_buffers`; a Message * is an
-- address in `messages`, in which a deleted one leaves `none`.
pub record Server : Type 0 where
  pub world : World
  pub read_buffers : List BsonBuffer
  pub messages : List (Option Message)
  pub queue : RingQueue

-- What ::read gives in turn; no byte is the end of the connection.
pub data Reads : Type 0 where
  block : List ℕ → Reads → Reads
  interrupted : Reads
  again : Reads
  failed : Reads

-- The size of the array in Socket::read.
abbrev pub to_read : ℕ
to_read = 2048

-- The loop of Socket::read, with its result. The `continue` after EINTR goes to the loop's condition,
-- which -1 does not meet; the result of Buffer::add is not looked at.
unfoldable pub read : Reads → Buffer → Option (ℤ × Buffer)
read (block bytes more) b = if length bytes == 0 then some (negsuc 0, b) else elim (add b bytes) [
  | none ↦ none
  | some (r, b') ↦ elim (ltb (length bytes) to_read) [
    | true ↦ some (pos 0, b')
    | false ↦ read more b'
  ]
]
read interrupted b = some (pos 0, b)
read again b = some (pos 0, b)
read failed b = some (negsuc 0, b)

-- The try block at the end of BsonBuffer::parseFromBuffer.
abbrev pub caught_protocol : Object → Outcome Object → Outcome Object
caught_protocol old fault = fault
caught_protocol old thrown = ok old
caught_protocol old (ok obj) = ok obj

-- BsonBuffer::parseFromBuffer with what it does behind the unscrambling.
abbrev pub parsed_protocol :
    (List ℕ → Elements) → Object → Parsing × Buffer → Outcome (ℤ × BsonBuffer)
parsed_protocol iterate old (wait, b) = ok (pos 0, record { buffer = b; protocol = old })
parsed_protocol iterate old (invalid, b) = ok (negsuc 0, record { buffer = b; protocol = old })
parsed_protocol iterate old (crash, b) = fault
parsed_protocol iterate old (parsed doc, b) = do
  obj ← caught_protocol old (parse iterate doc)
  ok (pos 0, record { buffer = b; protocol = obj })

-- BsonBuffer::parseable
abbrev pub parseable : Buffer → Bool
parseable b = not (ltb (read_available b) 10)

-- PlayerSession::close
unfoldable pub close : ℕ → Server → Outcome Server
close ps s = do w ← player_offline ps s.world; ok (record s { world = w })

abbrev pub with_read_buffer : ℕ → BsonBuffer → Server → Server
with_read_buffer ps buf s = record s { read_buffers = set s.read_buffers ps buf }

-- A new Message in the queue.
unfoldable pub push_message : ℕ → Object → Server → Server
push_message ps request s = record s {
  messages = s.messages ++ some (record { ps = ps; request = request }) ∷ [];
  queue = push s.queue (length s.messages);
}

-- What follows on parseFromBuffer.
abbrev pub after_parse : ℕ → Server → ℤ × BsonBuffer → Outcome Server
after_parse ps s (ret, buf) =
    if ret ==ℤ negsuc 0
    then close ps (with_read_buffer ps buf s)
    else ok (push_message ps buf.protocol (with_read_buffer ps buf s))

-- The call of parseFromBuffer, and what follows.
unfoldable pub parse_next : (List ℕ → Elements) → ℕ → Object → Buffer → Server → Outcome Server
parse_next iterate ps old b s = do
  r ← parsed_protocol iterate old (parse_from_buffer b)
  after_parse ps s r

-- The part of epollRoutine behind the read, with what read returns. A session that is closed is read on.
unfoldable pub after_read : (List ℕ → Elements) → ℕ → Object → Server → ℤ × Buffer → Outcome Server
after_read iterate ps old s (ret, b) = do
  let s₁ = with_read_buffer ps (record { buffer = b; protocol = old }) s
  s₂ ← if ret ==ℤ negsuc 0 then close ps s₁ else ok s₁
  if parseable b then parse_next iterate ps old b s₂ else ok s₂

-- The round of epollRoutine for an event EPOLLIN of the session at `ps`.
unfoldable pub epoll_in : (List ℕ → Elements) → ℕ → Reads → Server → Outcome Server
epoll_in iterate ps reads s = do
  buf ← need (get_elem? s.read_buffers ps)
  r ← need (read reads buf.buffer)
  after_read iterate ps buf.protocol s r

-- The part of threadRoutine behind the pop.
unfoldable pub handle : Outside → Server → Option ℕ → Outcome Server
handle o s none = ok s
handle o s (some a) = do
  msg ← need (get_or s.messages a none)
  (ret, deleted, w) ← dispatch_message (do_request o msg.ps) msg.request s.world
  ok (record s { world = w; messages = if deleted then set s.messages a none else s.messages })

-- A round of WorkThread::threadRoutine.
unfoldable pub work : Outside → Server → Outcome Server
work o s = let (r, q) = pop s.queue in handle o (record s { queue = q }) r

-- A round of socketAcceptRoutine: a session without a role, and `bytes` in its buffer's array.
unfoldable pub accept : List ℕ → Server → Server
accept bytes s = record s {
  world = record (s.world) { sessions = s.world.sessions ++ none ∷ [] };
  read_buffers = s.read_buffers ++ record { buffer = init bytes; protocol = [] } ∷ [];
}
