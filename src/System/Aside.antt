-- ===== src/System/Aside.antt =====
-- What a step of one session does to itself and to the others (cirque-server/src/session.rs).
use mathlib.Core.Path.{subst}
use cirque.Base.{
  true, false, ◌==◌, Bytes, none, some, ◌++◌, List, [], ◌≡◌, refl, sym, ◌∙◌, arith, inl, inr,
  Bool-cases,
}
use cirque.Types.User.{UserId}
use cirque.MessageWriter.{SerializedMessage, Mailbox}
use cirque.MessageWriter
use cirque.Delivery.Laws.{Grown, Grown-refl, Grown-trans, deliver-Grown}
use cirque.UserState.{disconnected}
use cirque.Session.Task.{Task}
use cirque.System.{Session, Turn, selecting, flush}
use cirque.System.Step.{System, set_at, taken, opened, finished, closed, wrote, received, moved}
use cirque.System.Wire.{
  Wired, Wired-Grown, Wired-phase, Wired-new, Wired-closed, in_loop, is_flushing, pending,
}

-- What holds of one session, if it runs.
abbrev pub WiredAt : System → UserId → Type 0
WiredAt s i =
    (session : Session) → s.sessions i ≡ some session → Wired (s.mailboxes i) (s.sockets i) session

-- A step leaves another session alone, but for what is delivered to it.
pub record Aside (s u : System) (j : UserId) : Type 0 where
  pub session : u.sessions j ≡ s.sessions j
  pub mailbox : Grown (s.mailboxes j) (u.mailboxes j)
  pub socket : u.sockets j ≡ s.sockets j

Aside-WiredAt : (s u : System) (j : UserId) → Aside s u j → WiredAt s j → WiredAt u j
Aside-WiredAt s u j a w session h = rw a.socket (
    Wired-Grown (s.mailboxes j) (u.mailboxes j) (s.sockets j) session a.mailbox
      (w session (sym a.session ∙ h)))

-- A step of the session `i`: what it leaves there, and that it leaves the others alone.
pub by_session :
    (s u : System) (i : UserId)
    → ((j : UserId) → WiredAt s j)
    → WiredAt u i
    → ((j : UserId) → (i == j) ≡ false → Aside s u j)
    → (j : UserId) → WiredAt u j
by_session s u i w here aside j = elim (Bool-cases (i == j)) [
  | inl same ↦ let e : i ≡ j = ground arith in subst (WiredAt u) e here
  | inr other ↦ Aside-WiredAt s u j (aside j other) (w j)
]

pub set_at-same : {A : Type 0} (i : UserId) (a : A) (f : UserId → A) → set_at i a f i ≡ a
set_at-same i a f = ground arith

pub set_at-other :
    {A : Type 0} (i j : UserId) (a : A) (f : UserId → A) → (i == j) ≡ false → set_at i a f j ≡ f j
set_at-other i j a f h = rw h refl

pub taken-Aside :
    (s : System) (i : UserId) (t : Turn) (j : UserId) → (i == j) ≡ false → Aside s (taken s i t) j
unfolding taken
taken-Aside s i t j h = record {
  session = set_at-other i j (some t.session) s.sessions h;
  mailbox = deliver-Grown s.server.message_context t.sent s.mailboxes j;
  socket = refl;
}

-- A running session is wired if its new state is.
here-WiredAt :
    (u : System) (i : UserId) (new : Session)
    → u.sessions i ≡ some new
    → Wired (u.mailboxes i) (u.sockets i) new
    → WiredAt u i
here-WiredAt u i new h w session e =
    let same : some new ≡ some session = sym h ∙ e in
    let equal : new ≡ session = cc in subst (Wired (u.mailboxes i) (u.sockets i)) equal w

-- A session that has been at `old` takes a turn.
pub taken-WiredAt :
    (s : System) (i : UserId) (t : Turn) (old : Session)
    → Wired (s.mailboxes i) (s.sockets i) old
    → is_flushing old.phase ≡ false
    → is_flushing t.session.phase ≡ false
    → (in_loop t.session.phase ≡ true
        → (in_loop old.phase ≡ true) × (pending t.session.phase ≡ pending old.phase))
    → WiredAt (taken s i t) i
unfolding taken
taken-WiredAt s i t old w p q h =
    here-WiredAt (taken s i t) i t.session (set_at-same i (some t.session) s.sessions) (
      Wired-phase _ (s.sockets i) old t.session p q h (
        Wired-Grown (s.mailboxes i) _ (s.sockets i) old
          (deliver-Grown s.server.message_context t.sent s.mailboxes i) w))

pub received-Aside :
    (s : System) (i : UserId) (new : Session) (rest : List SerializedMessage) (j : UserId)
    → (i == j) ≡ false
    → Aside s (received s i new rest) j
received-Aside s i new rest j h = record {
  session = set_at-other i j (some new) s.sessions h;
  mailbox =
      subst (Grown (s.mailboxes j))
        (sym (set_at-other i j (record (s.mailboxes i) { queue = rest }) s.mailboxes h))
        (Grown-refl (s.mailboxes j));
  socket = refl;
}

pub received-WiredAt :
    (s : System) (i : UserId) (new : Session) (rest : List SerializedMessage)
    → Wired (record (s.mailboxes i) { queue = rest }) (s.sockets i) new
    → WiredAt (received s i new rest) i
received-WiredAt s i new rest w =
    here-WiredAt (received s i new rest) i new (set_at-same i (some new) s.sessions)
      (rw (set_at-same i (record (s.mailboxes i) { queue = rest }) s.mailboxes) w)

pub wrote-Aside :
    (s : System) (i : UserId) (new : Session) (bytes : Bytes) (j : UserId)
    → (i == j) ≡ false
    → Aside s (wrote s i new bytes) j
wrote-Aside s i new bytes j h = record {
  session = set_at-other i j (some new) s.sessions h;
  mailbox = Grown-refl (s.mailboxes j);
  socket = set_at-other i j (s.sockets i ++ bytes) s.sockets h;
}

pub wrote-WiredAt :
    (s : System) (i : UserId) (new : Session) (bytes : Bytes)
    → Wired (s.mailboxes i) (s.sockets i ++ bytes) new
    → WiredAt (wrote s i new bytes) i
wrote-WiredAt s i new bytes w =
    here-WiredAt (wrote s i new bytes) i new (set_at-same i (some new) s.sessions)
      (rw (set_at-same i (s.sockets i ++ bytes) s.sockets) w)

pub moved-Aside :
    (s : System) (i : UserId) (new : Session) (j : UserId)
    → (i == j) ≡ false
    → Aside s (moved s i new) j
moved-Aside s i new j h = record {
  session = set_at-other i j (some new) s.sessions h;
  mailbox = Grown-refl (s.mailboxes j);
  socket = refl;
}

pub moved-WiredAt :
    (s : System) (i : UserId) (new : Session)
    → Wired (s.mailboxes i) (s.sockets i) new
    → WiredAt (moved s i new) i
moved-WiredAt s i new w = here-WiredAt (moved s i new) i new (set_at-same i (some new) s.sessions) w

pub opened-Aside : (s : System) (i j : UserId) → (i == j) ≡ false → Aside s (opened s i) j
unfolding opened
opened-Aside s i j h = record {
  session = refl;
  mailbox =
      subst (Grown (s.mailboxes j)) (sym (set_at-other i j (MessageWriter.new 128) s.mailboxes h))
        (Grown-refl (s.mailboxes j));
  socket = set_at-other i j [] s.sockets h;
}

pub opened-Wired :
    (s : System) (i : UserId) (task : Task)
    → Wired
        ((opened s i).mailboxes i)
        ((opened s i).sockets i)
        (record { task = task; phase = selecting })
unfolding opened
opened-Wired s i task =
    rw (set_at-same i (MessageWriter.new 128) s.mailboxes)
      (rw (set_at-same i [] s.sockets) (Wired-new task))

pub closed-Aside :
    (s : System) (i : UserId) (task : Task) (j : UserId)
    → (i == j) ≡ false
    → Aside s (closed s i task) j
unfolding closed
closed-Aside s i task j h = record {
  session = set_at-other i j _ s.sessions h;
  mailbox =
      subst (Grown (s.mailboxes j)) (sym (set_at-other i j (flush (s.mailboxes i)).1 s.mailboxes h))
        (Grown-refl (s.mailboxes j));
  socket = refl;
}

pub closed-WiredAt :
    (s : System) (i : UserId) (task : Task) (old : Session)
    → task.state ≡ disconnected
    → Wired (s.mailboxes i) (s.sockets i) old
    → WiredAt (closed s i task) i
unfolding closed
closed-WiredAt s i task old gone w =
    here-WiredAt (closed s i task) i _ (set_at-same i _ s.sessions) (
      rw (set_at-same i (flush (s.mailboxes i)).1 s.mailboxes)
        (Wired-closed (s.mailboxes i) (s.sockets i) old task gone w))

pub finished-Aside : (s : System) (i j : UserId) → (i == j) ≡ false → Aside s (finished s i) j
finished-Aside s i j h = record {
  session = set_at-other i j none s.sessions h;
  mailbox = Grown-refl (s.mailboxes j);
  socket = refl;
}

pub finished-WiredAt : (s : System) (i : UserId) → WiredAt (finished s i) i
finished-WiredAt s i session e =
    let same : none ≡ some session = sym (set_at-same i none s.sessions) ∙ e in absurd (cc)

pub Aside-trans : (s t u : System) (j : UserId) → Aside s t j → Aside t u j → Aside s u j
Aside-trans s t u j p q = record {
  session = q.session ∙ p.session;
  mailbox = Grown-trans _ _ _ p.mailbox q.mailbox;
  socket = q.socket ∙ p.socket;
}
