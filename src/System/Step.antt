-- ===== src/System/Step.antt =====
-- The whole program at work: the shared state, the task of every client, the mailboxes between them
-- and the sockets. A step is what one task does under one lock or between two
-- of its awaits, so the steps of different tasks
-- interleave in any order.
use cirque.Base.{
  ◌<◌, ◌≤◌, length, ℕ, true, ◌==◌, if◌then◌else◌, Bytes, Option, none, some, List, [], ◌∷◌, ◌++◌,
  ◌≡◌,
}
use cirque.Types.User.{UserId}
use cirque.Timeout.{TimeoutConfig}
use cirque.ServerToClient.{WelcomeConfig}
use cirque.UserState.{is_alive, disconnected}
use cirque.Parser.Stream.{StreamParser, remaining_mut}
use cirque.MessageWriter.{SerializedMessage, Mailbox}
use cirque.MessageWriter
use cirque.Delivery.{Mailboxes, deliver}
use cirque.Server.State.{ServerStateInner}
use cirque.Server.State
use cirque.Server.Nickname.{External}
use cirque.Session.Task.{Task}
use cirque.Invariant.Reach.{Reload}
use cirque.System.{
  Session, Turn, selecting, reading, checking, on_lock, on_check, timer_starts, writing, leaving,
  closing, flushing, start, on_bytes, on_next, on_written, on_tick, left, on_exit, flush,
}

-- The sessions that run, the mailbox of each and what it has written to its socket. The mailbox of a
-- client has the id of the client as its handle.
pub record System : Type 0 where
  pub server : ServerStateInner
  pub sessions : UserId → Option Session
  pub mailboxes : Mailboxes
  pub sockets : UserId → Bytes

-- The value for one id is replaced.
abbrev pub set_at {ℓ} : {A : Type ℓ} → UserId → A → (UserId → A) → UserId → A
set_at i a f j = if i == j then a else f j

-- What a turn sent is delivered before the next step.
unfoldable pub taken : System → UserId → Turn → System
unfolding deliver
taken s i t = record {
  server = t.sv;
  sessions = set_at i (some t.session) s.sessions;
  mailboxes = deliver s.server.message_context t.sent s.mailboxes;
  sockets = s.sockets;
}

-- A session goes on by itself.
abbrev pub moved : System → UserId → Session → System
moved s i session = record s { sessions = set_at i (some session) s.sessions }

-- `Mailbox::new(mailbox_capacity)` of `new_registering_user`, and a socket on which nothing has been
-- written.
unfoldable pub opened : System → UserId → System
unfolding MessageWriter.new
opened s i = record s {
  mailboxes = set_at i (MessageWriter.new 128) s.mailboxes;
  sockets = set_at i [] s.sockets;
}

-- `rx.recv()` took the first message.
abbrev pub received : System → UserId → Session → List SerializedMessage → System
received s i session rest = record s {
  sessions = set_at i (some session) s.sessions;
  mailboxes = set_at i (record (s.mailboxes i) { queue = rest }) s.mailboxes;
}

-- Some bytes of a pending write reach the socket.
abbrev pub wrote : System → UserId → Session → Bytes → System
wrote s i session bytes = record s {
  sessions = set_at i (some session) s.sessions;
  sockets = set_at i (s.sockets i ++ bytes) s.sockets;
}

-- `rx.close()`, and what waits in the mailbox becomes the last write.
unfoldable pub closed : System → UserId → Task → System
unfolding flush
closed s i task =
    let (buf, rx) = flush (s.mailboxes i) in
    record s {
      sessions = set_at i (some (record { task = task; phase = flushing buf })) s.sessions;
      mailboxes = set_at i rx s.mailboxes;
    }

-- The end of the task.
abbrev pub finished : System → UserId → System
finished s i = record s { sessions = set_at i none s.sessions }

module _ (x : External) where
  pub data SystemStep : System → System → Type 0 where
    accept :
        {s : System} (i : UserId) (now : ℕ)
        → s.sessions i ≡ none
        → timer_starts s.server.timeout_config ≡ true
        → SystemStep s (taken (opened s i) i (start s.server i i now))
    -- `received` is not 0, and at most what the parser has room for.
    read :
        {s : System} (i : UserId) (task : Task) (chunk : Bytes)
        → s.sessions i ≡ some (record { task = task; phase = selecting })
        → is_alive task.state ≡ true
        → 0 < length chunk
        → length chunk ≤ remaining_mut task.stream_parser
        → SystemStep s (moved s i (on_bytes task chunk))
    next_line :
        {s : System} (i : UserId) (task : Task) (now : ℕ)
        → s.sessions i ≡ some (record { task = task; phase = reading })
        → SystemStep s (taken s i (on_next x now s.server task))
    -- PASS, NICK or USER of a client that registers, with anything between its two locks.
    lock_line :
        {s : System} (i : UserId) (task : Task) (turn : Turn)
        → s.sessions i ≡ some (record { task = task; phase = reading })
        → on_lock x s.server task ≡ some turn
        → SystemStep s (taken s i turn)
    check :
        {s : System} (i : UserId) (task : Task)
        → s.sessions i ≡ some (record { task = task; phase = checking })
        → SystemStep s (taken s i (on_check s.server task))
    recv :
        {s : System} (i : UserId) (task : Task) (msg : SerializedMessage)
        (rest : List SerializedMessage)
        → s.sessions i ≡ some (record { task = task; phase = selecting })
        → is_alive task.state ≡ true
        → (s.mailboxes i).queue ≡ msg ∷ rest
        → SystemStep s (received s i (record { task = task; phase = writing msg msg.bytes }) rest)
    -- The socket takes `now` of what is left of a message, and leaves `later`.
    write :
        {s : System} (i : UserId) (task : Task) (msg : SerializedMessage) (now later : Bytes)
        → s.sessions i ≡ some (record { task = task; phase = writing msg (now ++ later) })
        → SystemStep s (wrote s i (record { task = task; phase = writing msg later }) now)
    written :
        {s : System} (i : UserId) (task : Task) (msg : SerializedMessage)
        → s.sessions i ≡ some (record { task = task; phase = writing msg [] })
        → SystemStep s (moved s i (on_written task msg))
    write_fails :
        {s : System} (i : UserId) (task : Task) (msg : SerializedMessage) (unsent : Bytes)
        → s.sessions i ≡ some (record { task = task; phase = writing msg unsent })
        → SystemStep s (moved s i (left task))
    timer :
        {s : System} (show : ℕ → Bytes) (i : UserId) (task : Task) (now : ℕ) (token : Bytes)
        → s.sessions i ≡ some (record { task = task; phase = selecting })
        → is_alive task.state ≡ true
        → SystemStep s (taken s i (on_tick show s.server task now token))
    -- The client is gone, the read fails or gives no bytes, or nobody can send to the mailbox.
    stop :
        {s : System} (i : UserId) (task : Task)
        → s.sessions i ≡ some (record { task = task; phase = selecting })
        → SystemStep s (moved s i (left task))
    dispose :
        {s : System} (i : UserId) (task : Task)
        → s.sessions i ≡ some (record { task = task; phase = leaving })
        → SystemStep s (taken s i (on_exit s.server task))
    close :
        {s : System} (i : UserId) (parser : StreamParser)
        → s.sessions i
          ≡ some (record {
            task = record { stream_parser = parser; state = disconnected };
            phase = closing;
          })
        → SystemStep s (closed s i (record { stream_parser = parser; state = disconnected }))
    write_last :
        {s : System} (i : UserId) (task : Task) (now later : Bytes)
        → s.sessions i ≡ some (record { task = task; phase = flushing (now ++ later) })
        → SystemStep s (wrote s i (record { task = task; phase = flushing later }) now)
    -- The last write is done, or it fails, or its 10 seconds are over.
    finish :
        {s : System} (i : UserId) (parser : StreamParser) (unsent : Bytes)
        → s.sessions i
          ≡ some (record {
            task = record { stream_parser = parser; state = disconnected };
            phase = flushing unsent;
          })
        → SystemStep s (finished s i)
    reload :
        {s : System} {t : ServerStateInner}
        → Reload s.server t
        → SystemStep s (record s { server = t })

  -- Before the first connection. What the mailboxes and sockets of nobody hold is left open.
  pub data SystemReach : System → Type 0 where
    boot :
        (server_name : Bytes) (welcome_config : WelcomeConfig) (motd : Option (List Bytes))
        (password : Option Bytes) (timeout_config : Option TimeoutConfig) (mailboxes : Mailboxes)
        (sockets : UserId → Bytes)
        → SystemReach (record {
          server = State.new server_name welcome_config motd password timeout_config;
          sessions = λ i. none;
          mailboxes = mailboxes;
          sockets = sockets;
        })
    after : {s t : System} → SystemReach s → SystemStep s t → SystemReach t
