-- ===== src/Server/Tests.antt =====
-- A server with one session, on which a registration arrives.
use windnet_game.Prelude.{
  ℕ, ◌≤◌, ◌<◌, ◌≡◌, ◌⊎◌, refl, sym, ap, ◌∙◌, ℤ, pos, Bool, true, none, some, List, [], ◌∷◌, ◌++◌,
  append-nil, length, length-append, length-drop, length-replicate, replicate, drop, arith, lt→ltb,
  find, insert, put, string_key,
}
use windnet_game.Prelude.Outcome.{Outcome, ok}
use windnet_game.Ring
use windnet_game.Net.Buffer.{Buffer, init}
use windnet_game.Net.Buffer.Stream.{IsValid, unread}
use windnet_game.Net.Cipher.{IsBytes}
use windnet_game.Net.Packet.{packet_bytes}
use windnet_game.Net.Packet.Head.{length-packet}
use windnet_game.Bson.{
  Object, string_value, object_value, field, no_field, fields_of, object_of, get_string_val,
  get_object_val, get_or_default,
}
use windnet_game.Bson.Wire.{Elements, parse, parse_elements}
use windnet_game.Bson.Wire.Calls.{elements_of}
use windnet_game.Account.{Answers, init_accounts, get_account_info}
use windnet_game.Dispatch.{dispatch_message, init_table, route}
use windnet_game.World.{World}
use windnet_game.World.Requests.{Outside, do_request, on_login}
use windnet_game.LoginServlet
use windnet_game.LoginServlet.{do_register}
use windnet_game.LoginServlet.Requests.{do_login_request, call_login_handler}
use windnet_game.Server.{Server, BsonBuffer, Reads, block, again, read, accept, epoll_in, work}
use windnet_game.Server.Reading.{arrived, arrived_last, IsFine, IsFine-IsSmall}
use windnet_game.Server.Events.{Arrives, Event, Pushed, BufferHolds, event_parses, event_partial}
use windnet_game.Server.Steps.{Reach, here, later, accepts, reads, start, all_taken}
use windnet_game.Server.Worker.{NextTaken, Reach-NextTaken}
use windnet_game.Server.Queued.{from}
use windnet_game.Server.Served.{request-served}
use windnet_game.Server.Buffers.{Reach-read}

abbrev registration : Object
registration =
    (
      "Body",
      object_value
          (field "Name" (string_value "william") (field "Pwd" (string_value "secret") no_field)),
    )
    ∷ ("Command", string_value "Register")
    ∷ ("Token", string_value "")
    ∷ []

abbrev doc : List ℕ
doc = 65 ∷ 66 ∷ 67 ∷ []

-- A library that reads this document.
abbrev iterate : List ℕ → Elements
unfolding elements_of fields_of
iterate bytes = elements_of (fields_of registration)

abbrev empty : World
empty = record {
  accounts = init_accounts;
  servers = [];
  sessions = [];
  roles = [];
  scenes = [];
  online_players = [];
  cache_players = [];
  outbox = [];
}

abbrev array : List ℕ
array = replicate 8192 0

abbrev fresh : BsonBuffer
unfolding init
fresh = record { buffer = init array; protocol = [] }

abbrev connected : Server
unfolding accept init
connected = accept array (start empty)

reach : Reach iterate empty connected
unfolding accept connected
reach = later here (accepts array (length-replicate {0} {A = ℕ} 8192 0))

fresh-IsValid : IsValid fresh.buffer
unfolding init
fresh-IsValid = record {
  ordered = omega arith;
  within = omega arith;
  size = length-replicate {0} {A = ℕ} 8192 0;
}

abbrev whole : Reads
whole = block (packet_bytes doc) again

whole_size : length (packet_bytes doc) ≡ 13
whole_size = length-packet doc

whole-arrived : arrived whole ≡ packet_bytes doc
whole-arrived = arrived_last (packet_bytes doc) again (lt→ltb _ _ (omega (arith, whole_size)))

whole-IsFine : IsFine whole
whole-IsFine = (omega (arith, whole_size), omega (arith, whole_size), λ full. tt)

whole-Arrives : Arrives iterate 0 connected fresh whole
unfolding accept init
whole-Arrives =
    (refl, fresh-IsValid, whole-IsFine, omega (arith, ap length whole-arrived, whole_size))

registration-parses : parse iterate doc ≡ ok registration
unfolding elements_of fields_of insert put find parse parse_elements object_of
registration-parses = refl

doc-IsBytes : IsBytes doc
doc-IsBytes = (omega arith, (omega arith, (omega arith, tt)))

whole-packet : unread fresh.buffer ++ arrived whole ≡ packet_bytes doc ++ []
unfolding init
whole-packet = whole-arrived ∙ sym (append-nil (packet_bytes doc))

first_event :
    Event iterate 0 connected fresh whole
      (λ t. Pushed connected 0 registration t × BufferHolds t 0 registration [])
first_event =
    event_parses iterate 0 connected fresh whole doc [] registration whole-Arrives doc-IsBytes
      whole-packet registration-parses

event_parses_example :
    Event iterate 0 connected fresh whole
      (λ t. Pushed connected 0 registration t × BufferHolds t 0 registration [])
event_parses_example =
    event_parses iterate 0 connected fresh whole doc [] registration whole-Arrives doc-IsBytes
      whole-packet registration-parses

-- The head alone.
abbrev head_bytes : List ℕ
head_bytes = b'x' ∷ b'x' ∷ b'm' ∷ b'p' ∷ 4 ∷ 232 ∷ 0 ∷ 0 ∷ 0 ∷ 3 ∷ []

abbrev part : Reads
part = block head_bytes again

part-Arrives : Arrives iterate 0 connected fresh part
unfolding accept init arrived
part-Arrives = (refl, fresh-IsValid, (omega arith, omega arith, λ full. tt), omega arith)

event_partial_example : Event iterate 0 connected fresh part (λ t.
    (((length (unread fresh.buffer ++ arrived part) < 10)
        × (t.messages ≡ connected.messages)
        × (t.queue ≡ connected.queue)
        × (t.world ≡ connected.world))
      ⊎ ((10 ≤ length (unread fresh.buffer ++ arrived part)) × Pushed connected 0 [] t))
    × BufferHolds t 0 [] (unread fresh.buffer ++ arrived part))
unfolding init arrived packet_bytes
event_partial_example =
    event_partial iterate 0 connected fresh part doc (drop 10 (packet_bytes doc)) part-Arrives
      (omega arith) refl
      (λ e. absurd (omega (arith, ap length e, length-drop 10 (packet_bytes doc), whole_size)))

Reach-read_example :
    IsValid fresh.buffer
    × ((r : ℤ) × (b : Buffer) × (read part fresh.buffer ≡ some (r, b)) × IsValid b)
unfolding init accept
Reach-read_example =
    Reach-read iterate empty connected 0 fresh part reach refl (omega arith, λ full. tt)

Reach-NextTaken_example :
    (t : Server) × (r : Reach iterate empty t) × (all_taken r ≡ from 0 t.queue.head) × NextTaken t
unfolding connected
Reach-NextTaken_example =
    let (t, event, ((m, q, same), there)) = first_event in
    let r : Reach iterate empty t =
      later reach (reads 0 whole (IsFine-IsSmall whole whole-IsFine) event) in
    let (all, next) = Reach-NextTaken iterate empty t r (
      omega (
        arith,
        ap length m,
        length-append connected.messages (some (record { ps = 0; request = registration }) ∷ []),
      )) in
    (t, r, all, next)

abbrev taken : Answers
taken = record {
  executed = true;
  auto_id = pos 7;
  new_token = "a1";
  new_open_id = "b2";
  clock = 1400000000;
}

abbrev outside : Outside
outside = record {
  env = record {
    item_tables = record { items = []; soul_items = []; equip_strength = [] };
    soul_tables = record { souls_hunt_info = []; souls_info = []; souls_exchange = [] };
    executed = true;
    auto_id = pos 900;
    now = 1400000000;
    later = 1400000000;
    rand_weight = 0;
    rand_item = 0;
    rand_level = 0;
  };
  answers = taken;
  role_data = record {
    attributes = [];
    templates = λ id. none;
    cast = λ text. none;
    role_rows = [];
    item_rows = [];
    soul_rows = [];
  };
  int_cast = λ text. none;
  task_table = [];
  unset_double = 0;
}

-- The world that the registration leaves.
abbrev world_of : Outcome (Bool × Bool × World) → World
world_of (ok (ret, deleted, w)) = w
world_of _ = empty

abbrev registered_world : World
registered_world = world_of (dispatch_message (do_request outside 0) registration connected.world)

registers :
    dispatch_message (do_request outside 0) registration connected.world
    ≡ ok (true, true, registered_world)
unfolding dispatch_message do_request connected accept get_string_val get_object_val get_or_default
    find init_table route insert put object_of on_login do_login_request call_login_handler
    do_register get_account_info LoginServlet.registered
registers = refl

request-served_example :
    (t u : Server) × (epoll_in iterate 0 whole connected ≡ ok t)
    × (work outside t ≡ ok u)
    × (u.world ≡ registered_world)
unfolding connected Ring.init
request-served_example =
    request-served iterate empty connected 0 fresh whole doc [] registration outside true true
      registered_world reach refl (omega arith) whole-Arrives doc-IsBytes whole-packet
      registration-parses registers
