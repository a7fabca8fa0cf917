-- ===== src/System/Wire.antt =====
-- The mailbox and the socket of one session (cirque-server/src/session.rs,
-- cirque-core/src/message_writer.rs).
use mathlib.Core.Path.{subst}
use mathlib.Core.List.{append-nil, append_assoc}
use cirque.Base.{
  ◌≤◌, Bool, true, false, Bytes, length, List, [], ◌∷◌, ◌++◌, ◌≡◌, refl, sym, ap, ◌∙◌, arith, All,
  All-append,
}
use cirque.MessageWriter.{SerializedMessage, Mailbox, try_recv, close}
use cirque.MessageWriter
use cirque.MessageWriter.Bounds.{IsLine}
use cirque.Delivery.Laws.{Grown}
use cirque.UserState.{disconnected}
use cirque.Session.Task.{Task}
use cirque.System.{
  Phase, Session, selecting, reading, checking, writing, leaving, closing, flushing, drain, flush,
}

-- The bytes of messages, one behind the other.
unfoldable pub bytes_of : List SerializedMessage → Bytes
bytes_of [] = []
bytes_of (m ∷ ms) = m.bytes ++ bytes_of ms

pub bytes_of-append :
    (ms ns : List SerializedMessage) → bytes_of (ms ++ ns) ≡ bytes_of ms ++ bytes_of ns
unfolding bytes_of
bytes_of-append [] ns = refl
bytes_of-append (m ∷ ms) ns =
    ground (arith, bytes_of-append ms ns, append_assoc m.bytes (bytes_of ms) (bytes_of ns))

drain_lem :
    (rx : Mailbox) (queue : List SerializedMessage)
    → drain (length queue) (record rx { queue = queue })
      ≡ (bytes_of queue, record rx { queue = [] })
unfolding drain try_recv bytes_of
drain_lem rx [] = refl
drain_lem rx (m ∷ queue) = ap (λ p. (m.bytes ++ p.0, p.1)) (drain_lem rx queue)

-- At the end of a session every message that is still in its mailbox is taken out, in order, and the
-- mailbox is left closed and empty.
pub flush_lem :
    (rx : Mailbox) → flush rx ≡ (bytes_of rx.queue, record rx { queue = []; is_closed = true })
unfolding flush close
flush_lem rx = drain_lem (close rx) rx.queue

abbrev pub in_loop : Phase → Bool
in_loop selecting = true
in_loop reading = true
in_loop checking = true
in_loop (writing msg unsent) = true
in_loop leaving = false
in_loop closing = false
in_loop (flushing unsent) = false

abbrev pub is_flushing : Phase → Bool
is_flushing (flushing unsent) = true
is_flushing _ = false

-- What is taken out of the mailbox and not yet written.
abbrev pub pending : Phase → Bytes
pending (writing msg unsent) = unsent
pending (flushing unsent) = unsent
pending _ = []

-- The mailbox and the socket of a session that runs.
pub record Wired (rx : Mailbox) (socket : Bytes) (session : Session) : Type 0 where
  pub capacity : rx.capacity ≡ 128
  pub is_open : is_flushing session.phase ≡ false → rx.is_closed ≡ false
  pub gone : is_flushing session.phase ≡ true → session.task.state ≡ disconnected
  pub bounded : length rx.queue ≤ 128
  pub lines : All IsLine rx.queue
  pub written :
      in_loop session.phase ≡ true
      → (ms : List SerializedMessage) × ((socket ++ pending session.phase ≡ bytes_of ms)
          × All IsLine ms)

pub Wired-Grown :
    (a b : Mailbox) (socket : Bytes) (session : Session)
    → Grown a b
    → Wired a socket session
    → Wired b socket session
Wired-Grown a b socket session g w = record {
  capacity = g.capacity ∙ w.capacity;
  is_open = λ e. g.is_closed ∙ w.is_open e;
  gone = w.gone;
  bounded = omega (arith, w.capacity, g.capacity, g.bounded (omega (arith, w.capacity, w.bounded)));
  lines = rw g.queue (All-append IsLine a.queue g.more w.lines g.lines);
  written = w.written;
}

-- A session goes on and leaves its mailbox and its socket alone.
pub Wired-phase :
    (rx : Mailbox) (socket : Bytes) (old new : Session)
    → is_flushing old.phase ≡ false
    → is_flushing new.phase ≡ false
    → (in_loop new.phase ≡ true
        → (in_loop old.phase ≡ true) × (pending new.phase ≡ pending old.phase))
    → Wired rx socket old
    → Wired rx socket new
Wired-phase rx socket old new p q h w = record {
  capacity = w.capacity;
  is_open = λ _. w.is_open p;
  gone = λ e. let clash : true ≡ false = sym e ∙ q in cc;
  bounded = w.bounded;
  lines = w.lines;
  written = λ e.
      let (looping, same) = h e in
      let (ms, (bytes, ls)) = w.written looping in (ms, (ap (λ b. socket ++ b) same ∙ bytes, ls));
}

pub Wired-new :
    (task : Task) → Wired (MessageWriter.new 128) [] (record { task = task; phase = selecting })
unfolding MessageWriter.new bytes_of
Wired-new task = record {
  capacity = refl;
  is_open = λ _. refl;
  gone = λ e. cc;
  bounded = omega arith;
  lines = tt;
  written = λ e. ([], (refl, tt));
}

-- The first message leaves the mailbox.
pub Wired-received :
    (rx : Mailbox) (socket : Bytes) (task : Task) (msg : SerializedMessage)
    (rest : List SerializedMessage)
    → rx.queue ≡ msg ∷ rest
    → Wired rx socket (record { task = task; phase = selecting })
    → Wired
        (record rx { queue = rest })
        socket
        (record { task = task; phase = writing msg msg.bytes })
unfolding bytes_of
Wired-received rx socket task msg rest q w =
    let (ms, (e, ls)) = w.written refl in
    let both : All IsLine (msg ∷ rest) = subst (All IsLine) q w.lines in
    record {
      capacity = w.capacity;
      is_open = λ _. w.is_open refl;
      gone = λ k. cc;
      bounded = ground (arith, q, w.bounded);
      lines = both.1;
      written = λ _. (
        ms ++ (msg ∷ []),
        (
          rw (bytes_of-append ms (msg ∷ []), bytes_of, append-nil msg.bytes)
              (ap (λ b. b ++ msg.bytes) (sym (append-nil socket) ∙ e)),
          All-append IsLine ms (msg ∷ []) ls (both.0, tt),
        ),
      );
    }

-- Some bytes of a pending write reach the socket.
pub Wired-wrote :
    (rx : Mailbox) (socket now later : Bytes) (old new : Session)
    → is_flushing new.phase ≡ is_flushing old.phase
    → in_loop new.phase ≡ in_loop old.phase
    → new.task ≡ old.task
    → pending old.phase ≡ now ++ later
    → pending new.phase ≡ later
    → Wired rx socket old
    → Wired rx (socket ++ now) new
Wired-wrote rx socket now later old new p q same before after w = record {
  capacity = w.capacity;
  is_open = λ e. w.is_open (sym p ∙ e);
  gone = λ e. ap (λ t. t.state) same ∙ w.gone (sym p ∙ e);
  bounded = w.bounded;
  lines = w.lines;
  written = λ e.
      let (ms, (bytes, ls)) = w.written (sym q ∙ e) in
      (
        ms,
        (
          ap (λ b. (socket ++ now) ++ b) after
              ∙ append_assoc socket now later
              ∙ ap (λ b. socket ++ b) (sym before)
              ∙ bytes,
          ls,
        ),
      );
}

-- The mailbox is closed, and what was in it becomes the last write.
pub Wired-closed :
    (rx : Mailbox) (socket : Bytes) (old : Session) (task : Task)
    → task.state ≡ disconnected
    → Wired rx socket old
    → Wired (flush rx).1 socket (record { task = task; phase = flushing (flush rx).0 })
Wired-closed rx socket old task gone w = rw (flush_lem rx) (record {
  capacity = w.capacity;
  is_open = λ e. cc;
  gone = λ _. gone;
  bounded = omega arith;
  lines = tt;
  written = λ e. cc;
})
