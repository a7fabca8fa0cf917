-- ===== src/Session/Task.antt =====
-- `run_session` of cirque-server/src/session.rs: what the task of a client does with the bytes that a
-- read gave it, and with its mailbox at the end.
use cirque.Base.{ℕ, suc, Bytes, length, none, some, List, [], ◌∷◌, ◌++◌}
use cirque.Parser.Message.{parse_message}
use cirque.Parser.Stream.{StreamParser, read_into, consume_iter, lines}
use cirque.UserState.{UserState}
use cirque.Server.State.{ServerStateInner, Reply, Outbox}
use cirque.Server.Nickname.{External}
use cirque.Session.{handle_message, unchanged}

-- The variables of the task that survive a round of its loop.
pub record Task : Type 0 where
  pub stream_parser : StreamParser
  pub state : UserState

-- `while let Some(message) = iter.next() { .. }` over the lines of one read. A line that does not
-- parse is passed over. The system time at the `k`-th line is `clock k`.
unfoldable pub handle_lines :
    External → (ℕ → ℕ) → ℕ → ServerStateInner → UserState → List Bytes → Reply
handle_lines x clock k sv state [] = unchanged sv state
handle_lines x clock k sv state (line ∷ later) = elim (parse_message line) [
  | none ↦ handle_lines x clock (suc k) sv state later
  | some message ↦
      let first = handle_message x (clock k) sv state message in
      let rest = handle_lines x clock (suc k) first.sv first.user_state later in
      record { sv = rest.sv; sent = first.sent ++ rest.sent; user_state = rest.user_state }
]

-- What a round of the task's loop leaves behind.
pub record Round : Type 0 where
  pub sv : ServerStateInner
  pub sent : Outbox
  pub task : Task

-- The branch of `select!` for a read that gave `chunk`, whose first line is the `k`-th one.
unfoldable pub on_read : External → (ℕ → ℕ) → ℕ → ServerStateInner → Task → Bytes → Round
unfolding handle_lines
on_read x clock k sv task chunk =
    let parser = consume_iter (read_into task.stream_parser chunk) in
    let (ls, rest) = lines (length parser.buffer) parser.buffer in
    let r = handle_lines x clock k sv task.state ls in
    record {
      sv = r.sv;
      sent = r.sent;
      task = record { stream_parser = record parser { buffer = rest }; state = r.user_state };
    }
