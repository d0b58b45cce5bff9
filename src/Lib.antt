-- ===== src/Lib.antt =====
-- A model of windnet-game, a server for an online game.
--
-- The program's parts. Client sockets collect bytes in a Buffer (buffer.cpp); BsonBuffer
-- (bson_buffer.cpp) cuts packets out of it, unscrambles their bodies and scrambles the answers.
-- BSON::parse (bson/bson_parser.cpp) makes an object of a body. The thread of EpollServer
-- (epoll_server.cpp) does this for each event of a socket (socket.cpp) and pushes a Message into a
-- RingQueue (ring_queue.cpp); the WorkThread (thread.cpp) pops it, and ServletDispatch (servlet.cpp)
-- sends it to a servlet by its command. LoginServlet and RoleServlet
-- work on the accounts (account_manager.cpp); choosing a role makes a Role for the session
-- (player_session.cpp), which the other servlets change: its ItemBag (item_bag.cpp), which shares
-- Item objects (item.cpp) with other parts, its SoulsBag (souls_bag.cpp), its money, and its place in
-- a Scene (scene.cpp), which broadcasts to the sessions in it. Items, souls and roles are written to
-- the database, items with text that `split` (util.cpp) takes apart when the role is loaded.
--
-- Which file models what:
--   Ring       ring_queue.h, ring_queue.cpp: `init`, `push`, `pop`; Ring/Fifo and Ring/Stale
--              compare them with a plain queue.
--   Net/Buffer buffer.h, buffer.cpp: the record Buffer, `reset`, `copy_in`, `add`; Net/Buffer/Stream
--              sees the buffer as the stream of its unread bytes.
--   Net/Cipher the scrambling loop of bson_buffer.cpp: `crypt`.
--   Net/Packet protocol/packet.h, bson_buffer.cpp: `serialize_to_buffer`, `parse_from_buffer`.
--   Util       util.cpp: `split`.
--   Item       item.h, item.cpp and the struct ItemTemplate of dataset/item_template_manager.h:
--              `create_item`, `add_gem`, `get_gem_by_id`, `flush_to_db`; Item/Gems has the part of
--              ItemBag::loadFromDB that reads gems.
--   ItemBag    item_bag.h, item_bag.cpp: the record Store, `get`, `add_item`, `remove_item`,
--              `stack_item`, `move_item`, `list_items`, `get_item_count_by_template_id`;
--              ItemBag/Sort has `sort_items`, ItemBag/Load `load_from_db`.
--   SoulsBag   souls_bag.h, souls_bag.cpp: the record SoulStore, `next_hunt_soul_index`,
--              `store_soul_item`, `remove` and the others; SoulsBag/Load has `load_souls_from_db`.
--   Bson       bson/bson_parser.h, bson/bson_parser.cpp: values, objects, `get_int_val`,
--              `set_int_val` and the others.
--              Bson/Wire has parse and serializeToBuffer of the same file: `parse_value`,
--              `serialize_value`, with the library's calls and elements as data; Bson/Wire/Calls
--              and Bson/Wire/Received compare the two.
--   Server     socket.cpp, epoll_server.cpp, socket_server.cpp, thread.cpp, message.h: the record
--              Server, which the threads share, `read` for Socket::read, and a round of each loop,
--              `epoll_in`, `accept` and `work`; Server/Steps has the rounds in any order as a step
--              relation, Server/Queued and Server/Worker the order of the messages, Server/Reading
--              and Server/Events what an event makes of the bytes that arrive.
--   Dispatch   servlet.cpp: `init_table`, `dispatch`, `dispatch_message`; Dispatch/Routes has each
--              servlet's chain of commands, from its doRequest.
--   Role       role.h, role.cpp: the fields, `add_money`, `flush_role`, `load_role`.
--   Tables     dataset/item_template_manager.cpp, dataset/soul_item_template.cpp and randInt of
--              util.cpp: the lookups; Tables/Rows has what `init` does with a row.
--   Session    player_session.h and what the handlers share: the record Player, the messages.
--   ItemServlet, SoulServlet, GemServlet
--              item_servlet.cpp, soul_item_servlet.cpp, gem_servlet.cpp: `do_buy_item` for
--              doBuyItem, and so on, one function for each handler, on a Player; the ones that are
--              longer stand in child modules. Each has its doRequest (`do_item_request`).
--   ChatServlet
--              chat_servlet.cpp, friend_servlet.cpp: `do_chat_request`, `do_friend_request`.
--   Account    account_manager.h, account_manager.cpp: the record Accounts, `register_account`,
--              `create_role`, the lookups; Account/Load has the reading from the database.
--   LoginServlet
--              login_servlet.cpp, peer/server_manager.cpp, error_code.h: `do_register`, `do_login`,
--              `do_auto_login` and the other handlers; LoginServlet/Servers has the server list.
--   World      player_session.cpp, player_session_manager.cpp: the record World with the sessions,
--              the heap of roles and the scenes; World/Requests sends a request through all of it.
--   Scene      scene.cpp, scene_manager.cpp, playerOffline of player_session.cpp; Scene/Handlers has
--              scene_servlet.cpp.
--   RoleServlet
--              role_servlet.cpp: `do_create_role`, `do_load_roles` and others; RoleServlet/Choose
--              has `do_choose_role`.
--   Task       task.cpp, task_servlet.cpp, skill_servlet.cpp; Task/Timers has addTimer of timer.cpp.
--   Prelude    tests, lists, integers, maps, faults, outcomes and exclusive or, for all of them.
--
-- How the code is modelled. An object is a record and an operation a function on it. Objects that
-- are shared through pointers stand in a heap, a list in which an address is a position; a freed
-- object leaves `none`. A number of the source is a natural number or an integer that is wrapped
-- where the source stores it, to 64 bits in the ring queue, 32 in the buffer, `short` and `int` in
-- items, souls and roles. What the source does to memory that is not its own (a null pointer, a
-- place outside an array, a division by zero) is the result `none`, or `crash` in the parser. The
-- database is the list of the statements sent to it, the latest first, and so is what was sent to a
-- client. A handler gives an Outcome: `ok` with what the source returns and the new state, `fault`
-- for memory that is not its own, or `thrown` for an exception. A handler reads all that can throw
-- before it changes anything, so `thrown` carries no state; but doChooseRole may throw behind changes,
-- when boost::lexical_cast refuses a number while the items are loaded. There the result is the one
-- that the dispatch makes of an exception, `false`, with the changes: the session keeps the role that
-- is half loaded. Tokens that a handler does not look at, and the text for standard output, are left
-- out. The gems' text is cut at its first byte 0, as %s does. A double is only moved about, so it is its
-- 64 bits; the rate that randDouble() is compared with is the number of hundredths below it. What
-- comes from outside is an argument: the database's answers, rand(), the clock,
-- boost::lexical_cast, the UUIDs, and the value of a field that the source never writes.
--
-- Bounds and fuel. The buffer has 8192 bytes, the ring 8096 slots, a bag 25 places, as in the
-- source. The loop of sortItems can try an item again, so it runs on fuel, two rounds for each item,
-- since the item at the vector's back is full behind a round that is repeated. Decimal digits are
-- printed on a fuel of ten digits, enough for an `int`. The loops of doStrengthItem and of the souls'
-- levels run on the count that the source compares with, so they need no fuel.
--
-- The threads. A round of a loop is one step on the record Server, and a state is reached by rounds in
-- whatever order; the bytes and errors that a socket gives are the data type Reads, which the step
-- chooses. The rounds do not overlap: the atomic counters of the ring queue are taken to keep a push
-- and a pop apart, and that two threads work on one role at the same time is not in the model.
--
-- Not modelled: the BSON library (a copy of another project), which is two arguments of
-- `serialize_object` and `parse`, the bytes of a document for the calls that make it and the elements
-- that an iterator shows of bytes; that it reads what it writes is the hypothesis ReadsBack.
-- boost::lexical_cast is an argument too, and so are the rows of the CSV reader. Left out are rounds
-- of the threads that overlap; the system calls that set up sockets, epoll and threads; logs,
-- generated protocol buffers and database clients, which are input and output; the endless loop of
-- the timers; the attributes of the fight (stats_attr.cpp), which no handler uses; and the
-- process's start.
pub mod Prelude
pub mod Ring
pub mod Net
pub mod Util
pub mod Item
pub mod ItemBag
pub mod SoulsBag
pub mod Bson
pub mod Dispatch
pub mod Role
pub mod Tables
pub mod Session
pub mod ItemServlet
pub mod SoulServlet
pub mod GemServlet
pub mod Account
pub mod LoginServlet
pub mod World
pub mod Scene
pub mod RoleServlet
pub mod Task
pub mod Server
pub mod ChatServlet
