-- ===== src/System/Mailboxes.antt =====
-- Which mailboxes the server sends to, and which ones the sessions of cirque-server/src/session.rs read.
use mathlib.Core.Path.{sym}
use cirque.Base.{Option-cases, Bool-cases, false, some, ◌≡◌, ap, ◌∙◌, inl, inr, arith}
use cirque.Base.Map.{get, id_eq}
use cirque.Types.User.{UserId, RegisteredUser}
use cirque.UserState.{registered, disconnected}
use cirque.Server.State.{new}
use cirque.Server.Nickname.{External}
use cirque.Server.Valid.{IsValid}
use cirque.Invariant.Dispatch.{handle_message-keeps, check_timeout-keeps}
use cirque.Invariant.Reach.{Reach-IsValid, reload-same}
use cirque.Invariant.Registry.{WorldReach-Reach, WorldReach-sessions}
use cirque.Invariant.Mailboxes.{OwnMailboxes, same-OwnMailboxes, new_registering_user-OwnMailboxes}
use cirque.Invariant.Mailboxes.Keeping.{OwnMailboxes-Keeps, dispose_state-OwnMailboxes}
use cirque.Session.Locks.{locked-Writes}
use cirque.Invariant.Locks.{Writes-OwnMailboxes, checked-OwnMailboxes}
use cirque.System.{start, on_tick, on_exit, on_check, Session}
use cirque.System.Wire.{is_flushing}
use cirque.System.Step.{
  System, SystemStep, SystemReach, taken, opened, closed, accept, read, next_line, lock_line, check,
  recv, write, written, write_fails, timer, stop, dispose, close, write_last, finish, reload, boot,
  after,
}
use cirque.System.Refine.{world, state_of, SystemReach-world}
use cirque.System.Rounds.{on_next-cases, on_lock-cases}
use cirque.System.Lines.{SystemReach-Wired}

-- The server and the sessions fit together.
pub record Coherent (s : System) : Type 0 where
  pub valid : IsValid s.server
  pub own : OwnMailboxes s.server
  pub served :
      (i : UserId) (u : RegisteredUser)
      → get i s.server.users ≡ some u
      → (session : Session) × (s.sessions i ≡ some session)
        × ((s.mailboxes i).is_closed ≡ false)
        × ((s.mailboxes i).capacity ≡ 128)

module _ (x : External) where
  SystemReach-IsValid : {s : System} → SystemReach x s → IsValid s.server
  unfolding world
  SystemReach-IsValid r = Reach-IsValid x (WorldReach-Reach x (SystemReach-world x r)).0

  SystemStep-OwnMailboxes :
      {s u : System}
      → SystemStep x s u
      → IsValid s.server
      → OwnMailboxes s.server
      → OwnMailboxes u.server
  unfolding taken opened closed start on_tick on_exit on_check
  SystemStep-OwnMailboxes (accept {s = s} i now free timed) v h =
      new_registering_user-OwnMailboxes s.server h i now
  SystemStep-OwnMailboxes (read i task chunk e alive some_bytes fits) v h = h
  SystemStep-OwnMailboxes (next_line {s = s} i task now e) v h =
      elim (on_next-cases x now s.server task) [
        | inl (p, q) ↦ rw p h
        | inr (m, (p, q)) ↦ rw p (
            handle_message-keeps OwnMailboxes x s.server now task.state m
              (OwnMailboxes-Keeps x s.server v h task.state))
      ]
  SystemStep-OwnMailboxes (lock_line {s = s} i task turn e l) v h =
      let (m, first, same, there) = on_lock-cases x s.server task turn l in
      let (st, us, writes, whole) = locked-Writes x 0 s.server task.state m turn.sv first in
      Writes-OwnMailboxes x s.server st writes h
  SystemStep-OwnMailboxes (check {s = s} i task e) v h =
      checked-OwnMailboxes s.server v h task.state
  SystemStep-OwnMailboxes (recv i task msg rest e alive q) v h = h
  SystemStep-OwnMailboxes (write i task msg now later e) v h = h
  SystemStep-OwnMailboxes (written i task msg e) v h = h
  SystemStep-OwnMailboxes (write_fails i task msg unsent e) v h = h
  SystemStep-OwnMailboxes (timer {s = s} show i task now token e alive) v h =
      check_timeout-keeps OwnMailboxes x s.server show task.state now token
        (OwnMailboxes-Keeps x s.server v h task.state)
  SystemStep-OwnMailboxes (stop i task e) v h = h
  SystemStep-OwnMailboxes (dispose {s = s} i task e) v h =
      dispose_state-OwnMailboxes x s.server v h task.state
  SystemStep-OwnMailboxes (close i parser e) v h = h
  SystemStep-OwnMailboxes (write_last i task now later e) v h = h
  SystemStep-OwnMailboxes (finish i parser unsent e) v h = h
  SystemStep-OwnMailboxes (reload {s = s} {t = t} r) v h =
      let (p, q, c) = reload-same r in same-OwnMailboxes s.server t p q h

  SystemReach-OwnMailboxes : {s : System} → SystemReach x s → OwnMailboxes s.server
  unfolding new get
  SystemReach-OwnMailboxes (boot name config motd password t mailboxes sockets) = record {
    user = λ i u e. cc;
    ruser = λ i u e. cc;
  }
  SystemReach-OwnMailboxes (after r step) =
      SystemStep-OwnMailboxes step (SystemReach-IsValid r) (SystemReach-OwnMailboxes r)

  -- At any time: the server's state is valid, every client's messages go to the mailbox of its own
  -- session, and every user of the server has a session that runs, whose mailbox is open and has a
  -- capacity of 128.
  pub SystemReach-Coherent : {s : System} → SystemReach x s → Coherent s
  unfolding world
  SystemReach-Coherent {s = s} r = record {
    valid = SystemReach-IsValid r;
    own = SystemReach-OwnMailboxes r;
    served = λ i u e.
        let (st, state) = (WorldReach-sessions x (SystemReach-world x r) i).0.0 (ground arith) in
        elim (Option-cases (s.sessions i)) [
          | inl gone ↦
              let clash : disconnected ≡ registered st = sym (ap state_of gone) ∙ state in
              absurd (cc)
          | inr (session, here) ↦
              let w = SystemReach-Wired x r i session here in
              let there : session.task.state ≡ registered st = sym (ap state_of here) ∙ state in
              let calm : is_flushing session.phase ≡ false =
                elim (Bool-cases (is_flushing session.phase)) [
                  | inl e ↦
                      let clash : registered st ≡ disconnected = sym there ∙ w.gone e in absurd (cc)
                  | inr e ↦ e
                ] in
              (session, here, w.is_open calm, w.capacity)
        ];
  }
