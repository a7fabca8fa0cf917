-- ===== src/System/Ending.antt =====
-- The end of `run_session` in cirque-server/src/session.rs, as a sequence of steps.
use cirque.Base.{
  ℕ, suc, Bool, true, false, ◌==◌, Bytes, Option, none, some, [], ◌++◌, ◌≡◌, refl, sym, ap, ◌∙◌,
}
use cirque.Types.User.{UserId}
use cirque.UserState.{disconnected, is_alive}
use cirque.Parser.Stream.{StreamParser}
use cirque.Server.Nickname.{External}
use cirque.Session.Task.{Task}
use cirque.System.{Session, Phase, selecting, flushing, left, on_exit}
use cirque.System.Step.{
  System, SystemStep, moved, taken, closed, wrote, finished, accept, read, next_line, lock_line,
  check, recv, write, written, write_fails, timer, stop, dispose, close, write_last, finish, reload,
}
use cirque.System.Wire.{bytes_of}

-- The client whose task takes a step.
abbrev pub mover : {x : External} {s t : System} → SystemStep x s t → Option UserId
mover (accept i now free timed) = some i
mover (read i task chunk h alive some_bytes fits) = some i
mover (next_line i task now h) = some i
mover (lock_line i task turn h e) = some i
mover (check i task h) = some i
mover (recv i task msg rest h alive q) = some i
mover (write i task msg now later h) = some i
mover (written i task msg h) = some i
mover (write_fails i task msg unsent h) = some i
mover (timer show i task now token h alive) = some i
mover (stop i task h) = some i
mover (dispose i task h) = some i
mover (close i parser h) = some i
mover (write_last i task now later h) = some i
mover (finish i parser unsent h) = some i
mover (reload r) = none

-- So many steps, all of the task of one client.
pub data Alone (x : External) (i : UserId) : ℕ → System → System → Type 0 where
  here : {s : System} → Alone x i 0 s s
  and_then :
      {n : ℕ} {s t u : System}
      → Alone x i n s t
      → (step : SystemStep x t u) → mover step ≡ some i
      → Alone x i (suc n) s u

-- What a session leaves behind at its end, if its last write succeeds.
pub record Ended (s t : System) (i : UserId) : Type 0 where
  pub gone : t.sessions i ≡ none
  pub server : t.server ≡ s.server
  pub written : t.sockets i ≡ s.sockets i ++ bytes_of (s.mailboxes i).queue
  pub empty : (t.mailboxes i).queue ≡ []
  pub is_closed : (t.mailboxes i).is_closed ≡ true
  pub others :
      (j : UserId)
      → (i == j) ≡ false
      → (t.sessions j ≡ s.sessions j)
        × (t.mailboxes j ≡ s.mailboxes j)
        × (t.sockets j ≡ s.sockets j)

abbrev pub gone_task : StreamParser → Task
gone_task parser = record { stream_parser = parser; state = disconnected }

module _ (x : External) (s : System) (i : UserId) (parser : StreamParser) where
  abbrev outside : System
  outside = moved s i (left (gone_task parser))

  abbrev disposed : System
  disposed = taken outside i (on_exit outside.server (gone_task parser))

  abbrev last_bytes : Bytes
  last_bytes = bytes_of (s.mailboxes i).queue

  abbrev shut : System
  shut = closed disposed i (gone_task parser)

  abbrev flushed : Bytes → Session
  flushed rest = record { task = gone_task parser; phase = flushing rest }

  abbrev sent_all : System
  sent_all = wrote shut i (flushed []) last_bytes

  abbrev ended : System
  ended = finished sent_all i

abbrev is_selecting : Phase → Bool
is_selecting selecting = true
is_selecting _ = false

the_same : (i j : UserId) → some i ≡ some j → i ≡ j
the_same i j h = cc

one_session :
    (s : System) (i j : UserId) (a b : Session)
    → s.sessions j ≡ some a
    → s.sessions i ≡ some b
    → some j ≡ some i
    → a ≡ b
one_session s i j a b h at own = cc

-- A session elsewhere than at its `select!`.
elsewhere :
    (s : System) (i j : UserId) (a : Session) (task : Task)
    → s.sessions j ≡ some a
    → s.sessions i ≡ some (record { task = task; phase = selecting })
    → some j ≡ some i
    → is_selecting a.phase ≡ true
elsewhere s i j a task h at own = ap (λ b. is_selecting b.phase) (one_session s i j a _ h at own)

dead :
    (s : System) (i j : UserId) (a task : Task)
    → s.sessions j ≡ some (record { task = a; phase = selecting })
    → s.sessions i ≡ some (record { task = task; phase = selecting })
    → some j ≡ some i
    → is_alive a.state ≡ true
    → is_alive task.state ≡ true
dead s i j a task h at own alive =
    sym (ap (λ b. is_alive b.task.state) (one_session s i j _ _ h at own)) ∙ alive

-- The task of a client that is no more can do nothing but leave its loop, whatever it could read or
-- write, and this changes nothing else.
pub gone-leaves :
    (x : External) {s t : System} (step : SystemStep x s t) (i : UserId) (parser : StreamParser)
    → s.sessions i ≡ some (record { task = gone_task parser; phase = selecting })
    → mover step ≡ some i
    → t ≡ moved s i (left (gone_task parser))
unfolding is_alive
gone-leaves x (stop {s = s} j task h) i parser at own =
    let same : j ≡ i = cc in
    let tasks : task ≡ gone_task parser = ap (λ b. b.task) (one_session s i j _ _ h at own) in
    rw (same, tasks) refl
gone-leaves x (accept {s = s} j now free timed) i parser at own =
    let clash : none ≡ some _ = sym free ∙ ap s.sessions (the_same j i own) ∙ at in absurd (cc)
gone-leaves x (read {s = s} j task chunk h alive some_bytes fits) i parser at own =
    let clash : false ≡ true = dead s i j task _ h at own alive in absurd (cc)
gone-leaves x (recv {s = s} j task msg rest h alive q) i parser at own =
    let clash : false ≡ true = dead s i j task _ h at own alive in absurd (cc)
gone-leaves x (timer {s = s} show j task now token h alive) i parser at own =
    let clash : false ≡ true = dead s i j task _ h at own alive in absurd (cc)
gone-leaves x (next_line {s = s} j task now h) i parser at own =
    let clash : false ≡ true = elsewhere s i j _ _ h at own in absurd (cc)
gone-leaves x (lock_line {s = s} j task turn h e) i parser at own =
    let clash : false ≡ true = elsewhere s i j _ _ h at own in absurd (cc)
gone-leaves x (check {s = s} j task h) i parser at own =
    let clash : false ≡ true = elsewhere s i j _ _ h at own in absurd (cc)
gone-leaves x (write {s = s} j task msg now later h) i parser at own =
    let clash : false ≡ true = elsewhere s i j _ _ h at own in absurd (cc)
gone-leaves x (written {s = s} j task msg h) i parser at own =
    let clash : false ≡ true = elsewhere s i j _ _ h at own in absurd (cc)
gone-leaves x (write_fails {s = s} j task msg unsent h) i parser at own =
    let clash : false ≡ true = elsewhere s i j _ _ h at own in absurd (cc)
gone-leaves x (dispose {s = s} j task h) i parser at own =
    let clash : false ≡ true = elsewhere s i j _ _ h at own in absurd (cc)
gone-leaves x (close {s = s} j p h) i parser at own =
    let clash : false ≡ true = elsewhere s i j _ _ h at own in absurd (cc)
gone-leaves x (write_last {s = s} j task now later h) i parser at own =
    let clash : false ≡ true = elsewhere s i j _ _ h at own in absurd (cc)
gone-leaves x (finish {s = s} j p unsent h) i parser at own =
    let clash : false ≡ true = elsewhere s i j _ _ h at own in absurd (cc)
gone-leaves x (reload r) i parser at own = absurd (cc)
