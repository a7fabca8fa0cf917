-- ===== src/System/Refine.antt =====
-- The tasks of cirque-server/src/session.rs, related to the world of Invariant/World, in which only the
-- states of the sessions are left.
use mathlib.Core.Path.{subst, fun_ext}
use cirque.Base.{
  ℕ, Option, none, some, ◌≡◌, refl, sym, ap, inl, inr, arith, Bool-cases, [], ◌⊎◌, ◌==◌, ◌∙◌,
}
use cirque.Types.User.{UserId}
use cirque.UserState.{UserState, disconnected}
use cirque.MessageWriter.{SerializedMessage}
use cirque.Server.State.{Reply}
use cirque.Server.Nickname.{External}
use cirque.Session.{handle_message, check_timeout, aggressively_reduce_timeout}
use cirque.Server.Registration.{new_registering_user}
use cirque.Server.Departure.{dispose_state}
use cirque.Session.Locks.{locked, checked}
use cirque.Session.Task.{Task}
use cirque.Invariant.World
use cirque.Invariant.World.{
  World, WorldStep, WorldReach, connect, receive, lock, tick, reduce, set_session, replied,
}
use cirque.System.{
  Session, Turn, start, on_bytes, on_next, on_lock, on_check, on_written, on_tick, on_exit,
}
use cirque.System.Step.{
  System, SystemStep, SystemReach, set_at, taken, opened, closed, moved, accept, read, next_line,
  lock_line, check, recv, write, written, write_fails, timer, stop, dispose, close, write_last,
  finish, reload, boot, after,
}
use cirque.System.Rounds.{on_next-cases, on_lock-cases}

-- What a session is in the world: the state of its client.
abbrev pub state_of : Option Session → UserState
state_of none = disconnected
state_of (some session) = session.task.state

abbrev pub states : (UserId → Option Session) → UserId → UserState
states sessions i = state_of (sessions i)

-- The abstract view forgets parsers, phases, mailboxes and sockets.
unfoldable pub world : System → World
world s = record { server = s.server; sessions = states s.sessions }

states-set :
    (i : UserId) (o : Option Session) (sessions : UserId → Option Session)
    → set_session i (state_of o) (states sessions) ≡ states (set_at i o sessions)
states-set i o sessions = fun_ext λ j. ground arith

-- A session that goes on in the same state.
set_session-same :
    (i : UserId) (us : UserState) (sessions : UserId → UserState)
    → sessions i ≡ us
    → set_session i us sessions ≡ sessions
set_session-same i us sessions h = fun_ext λ j. elim (Bool-cases (i == j)) [
  | inl same ↦ let e : i ≡ j = ground arith in rw same (sym (subst (λ k. sessions k ≡ us) e h))
  | inr other ↦ rw other refl
]

same-states :
    (i : UserId) (o : Option Session) (sessions : UserId → Option Session)
    → state_of (sessions i) ≡ state_of o
    → states sessions ≡ states (set_at i o sessions)
same-states i o sessions h =
    sym (set_session-same i (state_of o) (states sessions) h) ∙ states-set i o sessions

module _ (x : External) (s : System) (i : UserId) where
  abbrev Simulated : System → Type 0
  Simulated t = WorldStep x (world s) (world t) ⊎ (world s ≡ world t)

  -- One call of one session.
  by_call :
      (t : Turn) (r : Reply)
      → t.sv ≡ r.sv
      → t.session.task.state ≡ r.user_state
      → WorldStep x (world s) (replied (world s) i r)
      → Simulated (taken s i t)
  unfolding world taken
  by_call t r same_sv same_state step = inl (subst (WorldStep x (world s)) same step)
    where
      same : replied (world s) i r ≡ world (taken s i t)
      same = rw (sym same_sv) (
          rw (sym same_state) (
            ap (λ f. record { server = t.sv; sessions = f })
              (states-set i (some t.session) s.sessions)))

  -- Nothing that the world knows of.
  silently :
      (o : Option Session)
      → state_of (s.sessions i) ≡ state_of o
      → world s ≡ record { server = s.server; sessions = states (set_at i o s.sessions) }
  unfolding world
  silently o h = ap (λ f. record { server = s.server; sessions = f }) (same-states i o s.sessions h)

  -- A call in the state that the session has.
  at_state :
      (u : UserState → World) {us : UserState}
      → state_of (s.sessions i) ≡ us
      → WorldStep x (world s) (u (state_of (s.sessions i)))
      → WorldStep x (world s) (u us)
  at_state u h = subst (λ us. WorldStep x (world s) (u us)) h

  next_line-Simulated :
      (task : Task) (now : ℕ)
      → state_of (s.sessions i) ≡ task.state
      → Simulated (taken s i (on_next x now s.server task))
  unfolding world taken
  next_line-Simulated task now h = elim (on_next-cases x now s.server task) [
    | inl (p, q) ↦ inr (rw p (silently (some (on_next x now s.server task).session) (h ∙ sym q)))
    | inr (m, (p, q)) ↦
        by_call (on_next x now s.server task) (handle_message x now s.server task.state m) p q (
          at_state (λ us. replied (world s) i (handle_message x now s.server us m)) h
            (receive i now m))
  ]

  lock_line-Simulated :
      (task : Task) (t : Turn)
      → state_of (s.sessions i) ≡ task.state
      → on_lock x s.server task ≡ some t
      → Simulated (taken s i t)
  unfolding world taken
  lock_line-Simulated task t h e =
      let (m, first, same, there) = on_lock-cases x s.server task t e in
      inl (
        subst (λ f. WorldStep x (world s) (record { server = t.sv; sessions = f }))
          (same-states i (some t.session) s.sessions (h ∙ sym same))
          (lock i m (subst (λ us. locked x s.server us m ≡ some t.sv) (sym h) first)))

  written-Simulated :
      (task : Task) (msg : SerializedMessage)
      → state_of (s.sessions i) ≡ task.state
      → Simulated (moved s i (on_written task msg))
  unfolding world on_written taken
  written-Simulated task msg h = elim (Bool-cases msg.is_important) [
    | inl e ↦
        (by_call (record { sv = s.server; sent = []; session = on_written task msg })
          (record { sv = s.server; sent = []; user_state = aggressively_reduce_timeout task.state })
          refl (rw e refl)
          (at_state
            (λ us. record {
              server = s.server;
              sessions = set_session i (aggressively_reduce_timeout us) (states s.sessions);
            })
            h (reduce i)))
    | inr e ↦ inr (rw e (silently _ h))
  ]

module _ (x : External) where
  SystemStep-Simulated :
      {s t : System} → SystemStep x s t → WorldStep x (world s) (world t) ⊎ (world s ≡ world t)
  unfolding world taken opened closed start on_bytes on_tick on_exit on_check
  SystemStep-Simulated (accept {s = s} i now free timed) =
      by_call x s i (start s.server i i now) (new_registering_user s.server i i now) refl refl
        (connect i i now (ap state_of free))
  SystemStep-Simulated (read {s = s} i task chunk h alive some_bytes fits) =
      inr (silently x s i _ (ap state_of h))
  SystemStep-Simulated (next_line {s = s} i task now h) =
      next_line-Simulated x s i task now (ap state_of h)
  SystemStep-Simulated (lock_line {s = s} i task turn h e) =
      lock_line-Simulated x s i task turn (ap state_of h) e
  SystemStep-Simulated (check {s = s} i task h) =
      by_call x s i (on_check s.server task) (checked s.server task.state) refl refl (
        at_state x s i (λ us. replied (world s) i (checked s.server us)) (ap state_of h)
          (World.check i))
  SystemStep-Simulated (recv {s = s} i task msg rest h alive q) =
      inr (silently x s i _ (ap state_of h))
  SystemStep-Simulated (write {s = s} i task msg now later h) =
      inr (silently x s i _ (ap state_of h))
  SystemStep-Simulated (written {s = s} i task msg h) =
      written-Simulated x s i task msg (ap state_of h)
  SystemStep-Simulated (write_fails {s = s} i task msg unsent h) =
      inr (silently x s i _ (ap state_of h))
  SystemStep-Simulated (timer {s = s} show i task now token h alive) =
      by_call x s i (on_tick show s.server task now token)
        (check_timeout show s.server task.state now token) refl refl
        (at_state x s i (λ us. replied (world s) i (check_timeout show s.server us now token))
          (ap state_of h) (tick show i now token))
  SystemStep-Simulated (stop {s = s} i task h) = inr (silently x s i _ (ap state_of h))
  SystemStep-Simulated (dispose {s = s} i task h) =
      by_call x s i (on_exit s.server task)
        (record {
          sv = (dispose_state s.server task.state).0;
          sent = [];
          user_state = disconnected;
        })
        refl refl
        (at_state x s i
          (λ us. record {
            server = (dispose_state s.server us).0;
            sessions = set_session i disconnected (states s.sessions);
          })
          (ap state_of h) (World.close i))
  SystemStep-Simulated (close {s = s} i parser h) = inr (silently x s i _ (ap state_of h))
  SystemStep-Simulated (write_last {s = s} i task now later h) =
      inr (silently x s i _ (ap state_of h))
  SystemStep-Simulated (finish {s = s} i parser unsent h) =
      inr (silently x s i none (ap state_of h))
  SystemStep-Simulated (reload {s = s} {t = t} r) = inl (WorldStep.reload r)

  -- The server and the states of the sessions are ones that World reaches.
  pub SystemReach-world : {s : System} → SystemReach x s → WorldReach x (world s)
  unfolding world
  SystemReach-world (boot name config motd password t mailboxes sockets) =
      WorldReach.start name config motd password t
  SystemReach-world (after {s = s} {t = t} r step) = elim (SystemStep-Simulated step) [
    | inl called ↦ WorldReach.next (SystemReach-world r) called
    | inr same ↦ subst (WorldReach x) same (SystemReach-world r)
  ]
