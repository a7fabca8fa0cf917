-- ===== src/Lib.antt =====
-- cirque, a small IRC server: the state that all clients share and its operations, the sessions, the
-- protocol's parser and serialiser, the mailboxes and the ping timeouts.
--
-- Parts and files (paths from the root of the repository).
--
-- cirque-parser/src/stream.rs and parser.rs, lib.rs: Parser/Stream cuts the bytes that were read into
--   lines, Parser/Message parses a line (`consume_line`, `next`, `parse_message`).
-- cirque-core/src/client_to_server.rs: ClientToServer has the typed messages, ClientToServer/Handlers
--   one function for each `handle_` function, ClientToServer/ListHandler `handle_list`, and
--   ClientToServer/Registry the REGISTRY and `try_from`.
-- cirque-core/src/user_state.rs: UserState and Session. `handle_message` turns a parsed line into one
--   operation of the server, `check_timeout` the tick of a timer.
-- cirque-core/src/timeout.rs: Timeout, the state of the pings of one client.
-- cirque-core/src/types.rs: Types, the modes, users, topics and channels with the guards of a channel.
-- cirque-core/src/error.rs: Error. cirque-core/src/nickname.rs: Server/Nickname.
-- cirque-core/src/server_state.rs: Server/State is `ServerStateInner`, and the operations are in
--   Server/Nickname (checks of names, lookup of targets), Server/Broadcast (the loops that send),
--   Server/Registration, Server/Membership (JOIN, NAMES, PART), Server/Departure (QUIT, lost
--   connections, NICK), Server/Messaging (PRIVMSG, NOTICE, AWAY), Server/Settings (MODE),
--   Server/Topics (TOPIC) and Server/Queries.
-- cirque-core/src/server_to_client.rs: ServerToClient has the messages, ServerToClient/Format their
--   serialisation `write_to`, from the lines of ServerToClient/Numerics and ServerToClient/Relay.
-- cirque-core/src/message_writer.rs: MessageWriter (a mailbox and the 512 bytes of one line) and
--   Delivery (`ingest`, and the store of all mailboxes).
-- cirque-server/src/session.rs: Session/Task is what the task of a client does with one read when
--   nothing comes in between; System has `run_session` branch by branch, and System/Step the tasks of
--   all clients with their mailboxes and sockets.
-- cirque-server/src/listener.rs and server.rs: Program/Launch (the listeners) and Program/Accept
--   (`accept`, `handshake`, a round of `run_server`).
-- cirque/src/config.rs: Program. cirque/src/main.rs: Program/Launch (`launch_server`), Program/Run
--   (`main` and its reload) and Program/Steps (the whole program).
-- cirque-server/src/message_throttler.rs and connection_validator.rs: Transport/Throttler and
--   Transport/Limiter.
--
-- How they interact. A session reads bytes, cuts lines, parses each, and hands it to `handle_message`,
-- which calls one operation of the server under its lock. So an operation is a function of the server's
-- state. PASS, NICK and USER of a client that registers take the lock twice: Session/Locks has the two
-- halves, which are also steps of their own, with those of other clients in between. An operation gives the new state, the sends in their order (an `Outbox`), and the session's new state; a
-- method that may fail gives a `Result` as well, which its caller reports to the client. Delivery puts
-- the sends into the mailboxes, from which the sessions write to their sockets. Invariant has what every
-- operation keeps, Invariant/Reach the steps of the server in any order, and Invariant/World the server
-- together with the states that its sessions hold; Invariant/Isolation and Invariant/Registry are about
-- the clients of the other sessions and about the agreement of the sessions with the server. System is
-- finer: a step is what one task does under one lock or between two of its awaits, so another task may
-- run between two lines of one read, and what is sent waits in a mailbox until the task takes it out and
-- writes it, a few bytes at a time. A client that stops reading keeps its task in that write for ever. System/Mailboxes is
-- about the mailboxes that the server sends to and those that the sessions read, System/Wire,
-- System/Lines, System/Stream and System/Order about the way from there to the sockets, System/Ending and System/Silence about the end
-- of a session. System/Refine relates System to World, and Program/Refine the program with its start,
-- its connections and its reloads to System; a reload is one step there, and also one step for each of
-- its setters, in any order. Session/Invalid is about lines that do not decode.
--
-- Conventions. Text and bytes are lists of numbers below 256. A `HashMap` is an association list with at
-- most one entry for a key, compared by the key's own equality (for channels, equality up to ASCII
-- case); theorems speak of its entries by key, so they do not rest on the order. A `UserID` is the number
-- that stands for its UUID. Fresh ids, tokens, mailboxes and the time are arguments. Where the source
-- returns early after a failed lookup that it calls an internal error, so does the model.
--
-- Parameters. `External` is what the checks of nicknames take from other code: the Unicode table of
-- `char::is_alphanumeric` beyond ASCII, and `decancer::cure!`. Nothing is assumed of them. How a duration
-- is printed is a parameter of `check_timeout`. `F64` in Transport/Limiter is the arithmetic of the
-- machine's `f64`; one theorem takes what IEEE 754 says of small literals as the hypothesis `Documented`.
-- `Platform` in Program is the file system, the YAML reader, the certificates, TLS and the sockets; what
-- it does may change from one moment to the next, and nothing is assumed of it. How many
-- bytes a socket takes at a time is an argument of the step.
--
-- Fuel. The lines of a buffer are cut out in as many rounds as it has bytes, and each round shortens it
-- (`Parser.Laws.lines-enough`). The loop over the parameters of a line and the loop over the digits of a
-- number shorten what is left in each round too.
--
-- Not modelled: the scheduler of tokio, which leaves the order of the steps open (so the period of the
-- timer and the sleep of the throttler only decide when a step is taken; a session whose timer would have
-- the period 0 does not start), the moments between the reads of the settings at the start of a session
-- and its first entry in the server, which are one step, logging, the installation of
-- the signal handler, and a panic of the accepting task, which ends the process (cirque/src/main.rs). The
-- programs under tests/ start the server for external test suites.
pub mod Base
pub mod Transport
pub mod Types
pub mod Error
pub mod ServerToClient
pub mod Timeout
pub mod UserState
pub mod Server
pub mod Parser
pub mod ClientToServer
pub mod Session
pub mod MessageWriter
pub mod Delivery
pub mod Invariant
pub mod System
pub mod Program
pub mod Tests
