-- ===== src/Tests/Reading.antt =====
-- The theorems about the reads of a session, at a session that has just connected.
use cirque.Base.{ℕ, ◌+◌, codes, none, ◌++◌, ◌≡◌, arith, length}
use cirque.UserState.{UserState, registering}
use cirque.UserState
use cirque.Parser.Stream
use cirque.Session.Task.{Task, on_read}
use cirque.Session.Reads.{lines_of, both, on_read-append}
use cirque.Session.Room.{HasRoom, on_read-HasRoom}
use cirque.Tests.Fixtures.{plain}
use cirque.Tests.Reaching.{fresh}

abbrev begun : Task
begun = record { stream_parser = Stream.default; state = registering (UserState.new 1 0 none) }

abbrev clock : ℕ → ℕ
clock k = 100 + k

-- `NICK al`, cut in the middle of the command.
on_read-append_example :
    on_read plain clock 0 fresh begun (codes "NI" ++ codes "CK al\r\n")
    ≡ both (on_read plain clock 0 fresh begun (codes "NI")) (
        on_read plain clock
          (0 + length (lines_of begun (codes "NI")))
          (on_read plain clock 0 fresh begun (codes "NI")).sv
          (on_read plain clock 0 fresh begun (codes "NI")).task
          (codes "CK al\r\n"))
on_read-append_example =
    on_read-append plain clock 0 fresh begun (codes "NI") (codes "CK al\r\n") (omega arith)

on_read-HasRoom_example : HasRoom (on_read plain clock 0 fresh begun (codes "NICK al\r\nUS")).task
on_read-HasRoom_example =
    (on_read-HasRoom plain clock 0 fresh begun (codes "NICK al\r\nUS") (omega arith)).0
