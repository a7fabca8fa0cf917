-- ===== src/Session/Room.antt =====
-- A session never runs out of buffer (cirque-server/src/session.rs): a read into a full buffer would
-- give no bytes, which the task takes for the end of the connection.
use cirque.Base.{ℕ, ◌-◌, ◌≤◌, ◌<◌, Bytes, length, length-append, length-take, take, ◌≡◌, arith}
use cirque.Parser.Stream.{StreamParser, read_into, remaining_mut, consume_iter}
use cirque.Parser.Room.{lines-room}
use cirque.Server.State.{ServerStateInner}
use cirque.Server.Nickname.{External}
use cirque.Session.Task.{Task, on_read}

-- The parser of the session has room for at least one more byte.
abbrev pub HasRoom : Task → Type 0
HasRoom task = length task.stream_parser.buffer < task.stream_parser.capacity

read_into-length :
    (p : StreamParser) (chunk : Bytes)
    → length p.buffer ≤ p.capacity
    → length (read_into p chunk).buffer ≤ p.capacity
unfolding read_into remaining_mut
read_into-length p chunk h =
    let sum = length-append p.buffer (take (p.capacity - length p.buffer) chunk) in
    let part = length-take (p.capacity - length p.buffer) chunk in omega arith

consume_iter-capacity : (p : StreamParser) → (consume_iter p).capacity ≡ p.capacity
unfolding consume_iter
consume_iter-capacity p = ground arith

-- A session with room in its buffer has room after every read, whatever was read: the lines are cut
-- out, and a full buffer in which no line ends is cleared. The capacity stays the same.
pub on_read-HasRoom :
    (x : External) (clock : ℕ → ℕ) (k : ℕ) (sv : ServerStateInner) (task : Task) (chunk : Bytes)
    → HasRoom task
    → HasRoom (on_read x clock k sv task chunk).task
      × ((on_read x clock k sv task chunk).task.stream_parser.capacity
          ≡ task.stream_parser.capacity)
unfolding on_read read_into
on_read-HasRoom x clock k sv task chunk room =
    let full = read_into-length task.stream_parser chunk (omega arith) in
    (
      lines-room (read_into task.stream_parser chunk) (omega arith) full,
      consume_iter-capacity (read_into task.stream_parser chunk),
    )
