-- ===== src/Tests/Running.antt =====
-- A session of the whole program: a client connects, sends a PING while it registers, and its answer
-- waits in its mailbox.
use cirque.Base.{true, false, arith, codes, ◌≤◌, length, none, some, [], ◌∷◌, refl}
use cirque.UserState.{UserState, registering}
use cirque.UserState
use cirque.MessageWriter.{SerializedMessage}
use cirque.MessageWriter
use cirque.Session.Task.{Task}
use cirque.Parser.Stream.{default, remaining_mut}
use cirque.Server.State
use cirque.Server.Registration.{new_registering_user}
use cirque.System.{selecting, writing, start, timer_starts, on_bytes, on_next}
use cirque.System.Step.{
  System, SystemReach, taken, opened, moved, boot, after, accept, read, next_line, received, wrote,
  recv, write,
}
use cirque.System.Mailboxes.{Coherent, SystemReach-Coherent}
use cirque.System.Lines.{SystemReach-Wired}
use cirque.System.Stream.{Fed}
use cirque.System.Order.{still, later, Serving-Fed}
use cirque.Tests.Fixtures.{plain}
use cirque.Tests.Reaching.{fresh}

abbrev booted : System
booted = record {
  server = fresh;
  sessions = λ i. none;
  mailboxes = λ i. MessageWriter.new 0;
  sockets = λ i. [];
}

abbrev accepted : System
accepted = taken (opened booted 1) 1 (start fresh 1 1 0)

abbrev fresh_task : Task
fresh_task = record { stream_parser = default; state = registering (UserState.new 1 0 none) }

abbrev has_read : System
has_read = moved accepted 1 (on_bytes fresh_task (codes "PING :a\r\n"))

abbrev answering : System
answering =
    taken has_read 1
      (on_next plain 7 has_read.server (on_bytes fresh_task (codes "PING :a\r\n")).task)

answering-SystemReach : SystemReach plain answering
unfolding taken opened start on_bytes UserState.new UserState.is_alive State.new remaining_mut
    new_registering_user timer_starts
answering-SystemReach =
    after
      (after
        (after
          (boot (codes "cirque") (record { send_isupport = true }) none none none
            (λ i. MessageWriter.new 0) (λ i. []))
          (accept 1 0 refl refl))
        (read 1 fresh_task (codes "PING :a\r\n") refl refl (omega arith) (omega arith)))
      (next_line 1 (on_bytes fresh_task (codes "PING :a\r\n")).task 7 refl)

SystemReach-Wired_example : length (answering.mailboxes 1).queue ≤ 128
unfolding taken
SystemReach-Wired_example = (SystemReach-Wired plain answering-SystemReach 1 _ refl).bounded

-- A message waits in the mailbox of a client, and then its first four bytes are written.
abbrev ping_message : SerializedMessage
ping_message = record { bytes = codes "PING :t\r\n"; is_important = false }

abbrev waiting : System
waiting = record booted {
  sessions = λ i. some (record { task = fresh_task; phase = selecting });
  mailboxes = λ i. record { capacity = 128; queue = ping_message ∷ []; is_closed = false };
}

abbrev taken_out : System
taken_out =
    received waiting 1
      (record { task = fresh_task; phase = writing ping_message ping_message.bytes }) []

abbrev half_written : System
half_written =
    wrote taken_out 1 (record { task = fresh_task; phase = writing ping_message (codes " :t\r\n") })
      (codes "PING")

Serving-Fed_example : Fed waiting half_written 1
unfolding UserState.new UserState.is_alive
Serving-Fed_example = Serving-Fed plain 1 (
    later
      (later (still (record { session = _; here = refl; looping = refl }))
        (recv 1 fresh_task ping_message [] refl refl refl)
        (record { session = _; here = refl; looping = refl }))
      (write 1 fresh_task ping_message (codes "PING") (codes " :t\r\n") refl)
      (record { session = _; here = refl; looping = refl }))

SystemReach-Coherent_example : Coherent answering
SystemReach-Coherent_example = SystemReach-Coherent plain answering-SystemReach
