-- ===== src/System/Stream.antt =====
-- What goes from a mailbox to a socket, as one stream (cirque-server/src/session.rs).
use mathlib.Core.Path.{subst}
use mathlib.Core.List.{append-nil, append_assoc}
use cirque.Base.{
  true, false, ◌==◌, Bytes, Option, none, some, List, [], ◌∷◌, ◌++◌, ◌≡◌, refl, sym, ap, ◌∙◌, arith,
  All, All-append, inl, inr, Bool-cases,
}
use cirque.Types.User.{UserId}
use cirque.MessageWriter.{SerializedMessage}
use cirque.MessageWriter.Bounds.{IsLine}
use cirque.Delivery.Laws.{Grown, Grown-refl}
use cirque.Session.Task.{Task}
use cirque.System.{Session, selecting, writing}
use cirque.System.Step.{System, received, wrote, moved}
use cirque.System.Wire.{in_loop, pending, bytes_of, bytes_of-append}
use cirque.System.Aside.{Aside, set_at-same}

-- The task of the client has not left its loop.
pub record Running (s : System) (i : UserId) : Type 0 where
  pub session : Session
  pub here : s.sessions i ≡ some session
  pub looping : in_loop session.phase ≡ true

-- What a task has taken out of its mailbox and not yet written.
abbrev pub unsent : Option Session → Bytes
unsent none = []
unsent (some session) = pending session.phase

-- What is written to the socket of a client, behind it the rest of the message that is being written,
-- and behind that what waits in its mailbox.
abbrev pub stream : System → UserId → Bytes
stream s i = s.sockets i ++ (unsent (s.sessions i) ++ bytes_of (s.mailboxes i).queue)

-- The stream of a client has become longer at its end, by whole lines.
pub record Fed (s u : System) (i : UserId) : Type 0 where
  pub more : List SerializedMessage
  pub bytes : stream u i ≡ stream s i ++ bytes_of more
  pub lines : All IsLine more

pub Fed-Grown :
    (s u : System) (i : UserId)
    → Grown (s.mailboxes i) (u.mailboxes i)
    → u.sockets i ≡ s.sockets i
    → unsent (u.sessions i) ≡ unsent (s.sessions i)
    → Fed s u i
Fed-Grown s u i g same kept = record {
  more = g.more;
  bytes =
      let front = s.sockets i in
      let rest = unsent (s.sessions i) in
      let queue = bytes_of (s.mailboxes i).queue in
      rw (same, kept, g.queue)
        (ap (λ b. front ++ (rest ++ b)) (bytes_of-append (s.mailboxes i).queue g.more)
          ∙ ap (λ b. front ++ b) (sym (append_assoc rest queue (bytes_of g.more)))
          ∙ sym (append_assoc front (rest ++ queue) (bytes_of g.more)));
  lines = g.lines;
}

-- Nothing is added to the stream.
pub Fed-same : (s u : System) (i : UserId) → stream u i ≡ stream s i → Fed s u i
unfolding bytes_of
Fed-same s u i e = record { more = []; bytes = e ∙ sym (append-nil (stream s i)); lines = tt }

pub Fed-trans : (s t u : System) (i : UserId) → Fed s t i → Fed t u i → Fed s u i
Fed-trans s t u i p q = record {
  more = p.more ++ q.more;
  bytes =
      q.bytes
      ∙ ap (λ b. b ++ bytes_of q.more) p.bytes
      ∙ append_assoc (stream s i) (bytes_of p.more) (bytes_of q.more)
      ∙ ap (λ b. stream s i ++ b) (sym (bytes_of-append p.more q.more));
  lines = All-append IsLine p.more q.more p.lines q.lines;
}

pub Fed-received :
    (s : System) (i : UserId) (task : Task) (msg : SerializedMessage)
    (rest : List SerializedMessage)
    → s.sessions i ≡ some (record { task = task; phase = selecting })
    → (s.mailboxes i).queue ≡ msg ∷ rest
    → Fed s (received s i (record { task = task; phase = writing msg msg.bytes }) rest) i
unfolding bytes_of
Fed-received s i task msg rest h q = Fed-same s _ i (
    rw (set_at-same i (record (s.mailboxes i) { queue = rest }) s.mailboxes) (
      rw (set_at-same i (some (record { task = task; phase = writing msg msg.bytes })) s.sessions)
        (rw h (ap (λ l. s.sockets i ++ bytes_of l) (sym q)))))

pub Fed-wrote :
    (s : System) (i : UserId) (task : Task) (msg : SerializedMessage) (now later : Bytes)
    → s.sessions i ≡ some (record { task = task; phase = writing msg (now ++ later) })
    → Fed s (wrote s i (record { task = task; phase = writing msg later }) now) i
Fed-wrote s i task msg now later h =
    let queue = bytes_of (s.mailboxes i).queue in
    Fed-same s _ i (
      rw (set_at-same i (s.sockets i ++ now) s.sockets) (
        rw (set_at-same i (some (record { task = task; phase = writing msg later })) s.sessions) (
          rw h (
            append_assoc (s.sockets i) now (later ++ queue)
            ∙ ap (λ b. s.sockets i ++ b) (sym (append_assoc now later queue))))))

-- A task that goes on with nothing of its own to write.
pub Fed-moved :
    (s : System) (i : UserId) (old new : Session)
    → s.sessions i ≡ some old
    → pending new.phase ≡ pending old.phase
    → Fed s (moved s i new) i
Fed-moved s i old new h same =
    Fed-Grown s (moved s i new) i (Grown-refl (s.mailboxes i)) refl
      (ap unsent (set_at-same i (some new) s.sessions) ∙ same ∙ ap unsent (sym h))

pub by_session-Fed :
    (s u : System) (i : UserId)
    → (Running s i → Running u i → Fed s u i)
    → ((j : UserId) → (i == j) ≡ false → Aside s u j)
    → (j : UserId) → Running s j
    → Running u j
    → Fed s u j
by_session-Fed s u i own aside j p q = elim (Bool-cases (i == j)) [
  | inl same ↦
      let e : i ≡ j = ground arith in subst (λ k. Running s k → Running u k → Fed s u k) e own p q
  | inr other ↦ let a = aside j other in Fed-Grown s u j a.mailbox a.socket (ap unsent a.session)
]

pub Running-not :
    (s : System) (i : UserId) (session : Session)
    → s.sessions i ≡ some session
    → in_loop session.phase ≡ false
    → ¬ Running s i
Running-not s i session e h r =
    let same : some session ≡ some r.session = sym e ∙ r.here in
    let phase : session.phase ≡ r.session.phase = cc in
    let clash : false ≡ true = sym h ∙ ap in_loop phase ∙ r.looping in cc

pub Running-none : (s : System) (i : UserId) → s.sessions i ≡ none → ¬ Running s i
Running-none s i e r = let same : none ≡ some r.session = sym e ∙ r.here in cc
