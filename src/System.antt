-- ===== src/System.antt =====
-- `run_session` of cirque-server/src/session.rs, branch by branch. What the task of a client does
-- under one lock or between two of its awaits is one function here; System/Step puts the tasks together.
pub mod Step
pub mod Rounds
pub mod Refine
pub mod Wire
pub mod Aside
pub mod Lines
pub mod Stream
pub mod Order
pub mod Mailboxes
pub mod Conversation
pub mod Ending
pub mod Silence
use cirque.Base.{
  ℕ, zero, suc, Bytes, Bool, true, ltb, Option, none, some, [], ◌++◌, if◌then◌else◌, length,
}
use cirque.Parser.Stream.{default, read_into, consume_iter, next}
use cirque.Types.User.{UserId, MailboxHandle}
use cirque.Timeout.{TimeoutConfig}
use cirque.UserState.{disconnected}
use cirque.MessageWriter.{SerializedMessage, Mailbox, try_recv, close}
use cirque.Server.State.{ServerStateInner, Outbox}
use cirque.Server.Nickname.{External}
use cirque.Server.Registration.{new_registering_user}
use cirque.Server.Departure.{dispose_state}
use cirque.Session.{handle_message, check_timeout, aggressively_reduce_timeout}
use cirque.Session.Locks.{locked, checked}
use cirque.Session.Task.{Task}

-- Where a task is: at its `select!`, in the loop over the lines of a read, between the two locks of
-- PASS, NICK and USER, in the write of a message of which so many bytes are still to be written, behind
-- its loop, behind `dispose_state`, and in its last write, of which so many bytes are left.
pub data Phase : Type 0 where
  selecting : Phase
  reading : Phase
  checking : Phase
  writing : SerializedMessage → Bytes → Phase
  leaving : Phase
  closing : Phase
  flushing : Bytes → Phase

pub record Session : Type 0 where
  pub task : Task
  pub phase : Phase

-- What a piece of the task leaves behind: the server, what it sent, and the task.
pub record Turn : Type 0 where
  pub sv : ServerStateInner
  pub sent : Outbox
  pub session : Session

-- `tokio::time::interval` panics for a period of 0, which is what a quarter of at most two nanoseconds
-- is rounded to. Without timeouts the period is a quarter of 99999 seconds.
unfoldable pub timer_starts : Option TimeoutConfig → Bool
timer_starts none = true
timer_starts (some config) = ltb 2 config.reduced_timeout

-- Up to the loop, where the timer starts. The mailbox that the operation makes has the handle `mailbox`.
unfoldable pub start : ServerStateInner → UserId → MailboxHandle → ℕ → Turn
unfolding new_registering_user
start sv user_id mailbox now =
    let r = new_registering_user sv user_id mailbox now in
    record {
      sv = r.sv;
      sent = r.sent;
      session = record {
        task = record { stream_parser = default; state = r.user_state };
        phase = selecting;
      };
    }

-- The branch of a read that gave bytes, up to its inner loop.
unfoldable pub on_bytes : Task → Bytes → Session
unfolding consume_iter read_into
on_bytes task chunk = record {
  task = record task { stream_parser = consume_iter (read_into task.stream_parser chunk) };
  phase = reading;
}

-- One round of `while let Some(message) = iter.next()`, at the system time `now`.
unfoldable pub on_next : External → ℕ → ServerStateInner → Task → Turn
unfolding next handle_message
on_next x now sv task =
    let (found, rest) = next task.stream_parser.buffer in
    let parser = record task.stream_parser { buffer = rest } in
    elim found [
      | none ↦ record {
        sv = sv;
        sent = [];
        session = record {
          task = record { stream_parser = parser; state = task.state };
          phase = selecting;
        };
      }
      | some parsed ↦ elim parsed [
        | none ↦ record {
          sv = sv;
          sent = [];
          session = record {
            task = record { stream_parser = parser; state = task.state };
            phase = reading;
          };
        }
        | some message ↦
            let r = handle_message x now sv task.state message in
            record {
              sv = r.sv;
              sent = r.sent;
              session = record {
                task = record { stream_parser = parser; state = r.user_state };
                phase = reading;
              };
            }
      ]
    ]

-- The same round as far as the first lock, where the message takes the lock twice.
unfoldable pub on_lock : External → ServerStateInner → Task → Option Turn
unfolding next locked
on_lock x sv task =
    let (found, rest) = next task.stream_parser.buffer in
    let parser = record task.stream_parser { buffer = rest } in
    elim found [
      | none ↦ none
      | some parsed ↦ elim parsed [
        | none ↦ none
        | some message ↦ elim (locked x sv task.state message) [
          | none ↦ none
          | some sv' ↦ some (record {
            sv = sv';
            sent = [];
            session = record {
              task = record { stream_parser = parser; state = task.state };
              phase = checking;
            };
          })
        ]
      ]
    ]

-- The second lock, which ends the round.
unfoldable pub on_check : ServerStateInner → Task → Turn
unfolding checked
on_check sv task =
    let r = checked sv task.state in
    record {
      sv = r.sv;
      sent = r.sent;
      session = record { task = record task { state = r.user_state }; phase = reading };
    }

-- The branch of a message that has wholly been written to the socket.
unfoldable pub on_written : Task → SerializedMessage → Session
unfolding aggressively_reduce_timeout
on_written task msg = record {
  task = record task {
    state = if msg.is_important then aggressively_reduce_timeout task.state else task.state;
  };
  phase = selecting;
}

-- The branch of the timer.
unfoldable pub on_tick : (ℕ → Bytes) → ServerStateInner → Task → ℕ → Bytes → Turn
unfolding check_timeout
on_tick show sv task now token =
    let r = check_timeout show sv task.state now token in
    record {
      sv = r.sv;
      sent = r.sent;
      session = record { task = record task { state = r.user_state }; phase = selecting };
    }

-- A `break`, or the end of the loop.
abbrev pub left : Task → Session
left task = record { task = task; phase = leaving }

-- `server_state.dispose_state(state)`, which consumes the state.
unfoldable pub on_exit : ServerStateInner → Task → Turn
unfolding dispose_state
on_exit sv task =
    let (sv', sent) = dispose_state sv task.state in
    record {
      sv = sv';
      sent = sent;
      session = record { task = record task { state = disconnected }; phase = closing };
    }

-- `while let Ok(msg) = rx.try_recv()`, at most so many rounds.
unfoldable pub drain : ℕ → Mailbox → Bytes × Mailbox
unfolding try_recv
drain zero rx = ([], rx)
drain (suc rounds) rx =
    let (received, rest) = try_recv rx in
    let (later, last) = drain rounds rest in
    elim received [ none ↦ ([], rx) | some msg ↦ (msg.bytes ++ later, last) ]

-- `rx.close()` and the bytes for the last write.
unfoldable pub flush : Mailbox → Bytes × Mailbox
unfolding drain close
flush rx = let rx' = close rx in drain (length rx'.queue) rx'
