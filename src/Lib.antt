-- ===== src/Lib.antt =====
-- The core of fourinarow-server: its realtime part (clients on websockets, rooms of two players, the
-- game of four in a row, the presence of users), what its players own and have reached, and the tasks of
-- its minigame.
--
-- How the program is put together. Each part is an actor that handles one message at a time. A client's
-- connection (src/game/client_connection.rs) hands its lines to the client's adapter
-- (src/game/client_adapter.rs), which numbers, acknowledges, orders and sends again, and passes the
-- player's messages to the client's state (src/game/client_state.rs). The state asks the lobby manager
-- (src/game/lobby_mgr.rs) for a room, talks to its room (src/game/lobby.rs), whose game is
-- src/game/game_info.rs, and tells the connection manager (src/game/connection_mgr.rs) of logins.
--
-- What players own is in the tables of a database, behind src/player/repository.rs: its requests
-- (purchases, invitations, rewards, settled games, levels) each run one transaction, and a cache keeps
-- what was read of a player and the statistics that are still to be saved.
--
-- The tasks are requests of their own: they read what the player has reached, and write the claims, the
-- rounds of the achievements and the sign-ins into the database.
--
-- How it is modelled. An actor is a record with its fields; a handler is a function from the record and
-- the message to the record and the effects in order, a data type of each part: messages to other
-- actors, timers, log entries. A handler that returns `Ok(())` or `Err(())` returns this too. Addresses,
-- ids, tokens and instants are numbers, since they are compared and passed on only; time, random draws
-- and the addresses of new actors are arguments. Maps are association lists. A request whose answer an
-- actor waits for is an effect, and the continuation a function of its own.
--
--   Base            numbers, tests, lists, association lists, integers
--   Game/Error, Game/Message
--                   the data types of src/game/msg.rs
--   Game/Packet     src/game/msg.rs, `ReliablePacketIn::parse` and the acknowledgements of
--                   `ReliablePacketOut::serialize`; Decimal has the numbers, Frame the packets.
--                   Content has `PlayerMessage::parse`, with `GameId::parse` and `UserId::from_str`.
--   Game/Board      src/game/game_info.rs: `new`, `reset`, `check_win`, `check_win_internal`,
--                   `place_chip`; a field is the list of its columns, and row 0 is at the top.
--                   Run, Grid, Lines, Slants and Win say what the scans report, Chips what a move does.
--   Game/Adapter    src/game/client_adapter.rs, `ClientAdapter` and its handlers. Pass, Queue and Order
--                   follow the messages of the player, World and Delivery those of the server, where a line
--                   comes as it is parsed and the packets in the mailbox are handled one by one.
--   Game/Lobby      src/game/lobby.rs, the states of a room; Handle has the handlers, Run sequences of
--                   messages, Sound, Settle and Play the theorems.
--   Game/Manager    src/game/lobby_mgr.rs, and `GameId::generate` of src/game/game_info.rs; Matching
--                   and Closing have theorems on single requests, Run those on all sequences of them.
--   Game/Connections
--                   src/game/connection_mgr.rs, the state; Cleanup has presence and the intervals,
--                   Handle the messages, Presence, Sweep and Run the theorems.
--   Game/Client     src/game/client_state.rs; Play has the messages of the player, Lobbies and Presence
--                   the theorems together with the managers; Calm says what leaves a client's user as it is.
--   Tasks           src/api/minigame_tasks.rs, the catalogue. Tasks/Store has the rows of
--                   src/database/minigame_tasks.rs and its statements, Tasks/Service what is shown and
--                   the claims; Shown, Once and Rounds have the theorems on them, Signin those on
--                   sign-ins.
--   Player          the data types of src/player/aggregate.rs and src/quests/mod.rs. Player/Tables and its
--                   child Progress have the rows of the database and the statements of
--                   src/player/repository.rs on them, Transaction how a transaction runs them, with the
--                   rules of what it keeps. Quests, Achievements and Milestones have what an event
--                   brings, Operations and Games the transactions of the requests, Cache (with Rows)
--                   the entries of the cache, Repository (with Loads) the flushes and loads, and Service
--                   (with Results) the requests themselves.
--                   Events, Stable and Books have what the transactions keep of the tables;
--                   Milestones/Ends has the loop over the steps of an achievement. Run has sequences of
--                   requests: Cache, Flush and Requests say what they keep, Outcomes
--                   what an error leaves, and Books, Bounds,
--                   Settlement, Ratings, Levels, Errors and Saved have the theorems.
--   Tests           the theorems at concrete inputs
--
-- Bounds and fuel. The loops of `check_win_internal` are over lists of the cells that they visit, in
-- their order; a step out of range is an empty cell, which resets a run as the code does. `usize`
-- numbers of messages and columns are natural numbers: they count messages and never wrap in a run of
-- the program. `process_queue` runs on fuel above the length of the queue, which is enough since every
-- round that goes on takes a message (Game/Adapter/Queue). `GameId::generate` is over a list of
-- draws, which may run out. A text in Game/Packet is the list of its
-- bytes, an id read from it is below 2 ^ 64 as `parse::<usize>` demands, and the digits of n are written
-- on fuel n + 1, which is more than their number (Game/Packet/Decimal).
--
-- For the players the state is the tables, and each statement of src/player/repository.rs is a function
-- on them. Whether the database does the n-th statement of a transaction is an argument, so a theorem
-- covers each place at which a request can fail; what is not committed is undone. Requests come one
-- after another, and nothing else changes the cache while one is handled, though a flush takes what
-- other tasks do to the cache in the meantime as an argument. `i32` and `i64` values are integers: a sum
-- out of range fails in PostgreSQL as a statement does. The steps and thresholds of the milestones, which
-- are computed in the code, wrap around as `i32` does in a release build (Player/Milestones); of other
-- sums in the code an overflow is not looked at. Ids, texts and instants are numbers, and a formatted text, such as an idempotency key, is the list of its parts,
-- so that two keys are equal only if their parts are. The loop over the steps of an achievement runs on
-- fuel; where it runs out the request has the answer `running`, which the source does not have
-- (Player/Milestones/Ends).
--
-- For the tasks the state is the rows of one user in one game, and each statement of the source is a
-- function on it. Whether the database does the insertion of a claim or the advance of a round, whether it
-- answers the query of a sign-in and whether it does the insertion of one are arguments; the other
-- queries (the claims and rounds that are read, and the sign-ins that are shown) are taken to be answered.
-- Counts and amounts, `i64` numbers that are not negative, are natural numbers, and days are counted from
-- the sentinel day.
--
-- What is not modelled. The other parsers and printers of src/game/msg.rs, and what those modelled
-- call: the case mappings of Unicode, JSON and base64, which are arguments; the connection itself, the
-- HTTP service under src/api but for the tasks, the worker that flushes the players' cache from time to
-- time and three queries of that part that change nothing, the database, authentication and logging.
-- Messages between actors are delivered by the actor library, so the theorems are about sequences of
-- handled messages, in any order.
pub mod Base
pub mod Game
pub mod Tasks
pub mod Player
pub mod Tests
