-- ===== src/System/Lines.antt =====
-- The mailboxes and sockets of all running sessions (cirque-server/src/session.rs).
use cirque.Base.{ℕ, false, none, some, [], ◌≡◌, refl, ap, inl, inr, Option-cases}
use cirque.Types.User.{UserId}
use cirque.Server.State.{ServerStateInner}
use cirque.Server.Nickname.{External}
use cirque.Parser.Stream.{next}
use cirque.Session.Task.{Task}
use cirque.System.{start, on_next, on_tick, on_exit, on_bytes, on_written, on_check, left}
use cirque.System.Rounds.{on_lock-cases}
use cirque.System.Step.{
  System, SystemStep, SystemReach, opened, accept, read, next_line, lock_line, check, recv, write,
  written, write_fails, timer, stop, dispose, close, write_last, finish, reload, boot, after,
}
use cirque.System.Wire.{Wired-phase, Wired-received, Wired-wrote, pending, is_flushing}
use cirque.System.Aside.{
  WiredAt, by_session, taken-Aside, taken-WiredAt, received-Aside, received-WiredAt, moved-Aside,
  moved-WiredAt, wrote-Aside, wrote-WiredAt, opened-Aside, opened-Wired, closed-Aside,
  closed-WiredAt, finished-Aside, finished-WiredAt, Aside-trans,
}

-- A round over the lines leaves nothing to be written.
pub on_next-quiet :
    (x : External) (now : ℕ) (sv : ServerStateInner) (task : Task)
    → (pending (on_next x now sv task).session.phase ≡ [])
      × (is_flushing (on_next x now sv task).session.phase ≡ false)
unfolding on_next
on_next-quiet x now sv task = elim (Option-cases (next task.stream_parser.buffer).0) [
  | inl e ↦ rw (e, on_next) (refl, refl)
  | inr (none, e) ↦ rw (e, on_next) (refl, refl)
  | inr (some m, e) ↦ rw (e, on_next) (refl, refl)
]

module _ (x : External) where
  SystemStep-Wired :
      {s u : System} → SystemStep x s u → ((i : UserId) → WiredAt s i) → (i : UserId) → WiredAt u i
  unfolding start on_bytes on_written on_exit on_tick on_check
  SystemStep-Wired (accept {s = s} i now free timed) w =
      let t = start s.server i i now in
      by_session s _ i w
        (taken-WiredAt (opened s i) i t _ (opened-Wired s i t.session.task) refl refl
          (λ e. (refl, refl)))
        (λ j h.
          Aside-trans s (opened s i) _ j (opened-Aside s i j h) (taken-Aside (opened s i) i t j h))
  SystemStep-Wired (read {s = s} i task chunk h alive some_bytes fits) w =
      by_session s _ i w
        (moved-WiredAt s i (on_bytes task chunk)
          (Wired-phase _ _ _ _ refl refl (λ e. (refl, refl)) (w i _ h)))
        (moved-Aside s i _)
  SystemStep-Wired (next_line {s = s} i task now h) w =
      let (quiet, calm) = on_next-quiet x now s.server task in
      by_session s _ i w
        (taken-WiredAt s i (on_next x now s.server task) _ (w i _ h) refl calm (λ e. (refl, quiet)))
        (taken-Aside s i _)
  SystemStep-Wired (lock_line {s = s} i task turn h e) w =
      let (m, first, same, there) = on_lock-cases x s.server task turn e in
      by_session s _ i w
        (taken-WiredAt s i turn _ (w i _ h) refl (ap is_flushing there)
          (λ k. (refl, ap pending there)))
        (taken-Aside s i _)
  SystemStep-Wired (check {s = s} i task h) w =
      by_session s _ i w
        (taken-WiredAt s i (on_check s.server task) _ (w i _ h) refl refl (λ e. (refl, refl)))
        (taken-Aside s i _)
  SystemStep-Wired (recv {s = s} i task msg rest h alive q) w =
      by_session s _ i w
        (received-WiredAt s i _ rest
          (Wired-received (s.mailboxes i) (s.sockets i) task msg rest q (w i _ h)))
        (received-Aside s i _ rest)
  SystemStep-Wired (write {s = s} i task msg now later h) w =
      by_session s _ i w
        (wrote-WiredAt s i _ now
          (Wired-wrote _ (s.sockets i) now later _ _ refl refl refl refl refl (w i _ h)))
        (wrote-Aside s i _ now)
  SystemStep-Wired (written {s = s} i task msg h) w =
      by_session s _ i w
        (moved-WiredAt s i (on_written task msg)
          (Wired-phase _ _ _ _ refl refl (λ e. (refl, refl)) (w i _ h)))
        (moved-Aside s i _)
  SystemStep-Wired (write_fails {s = s} i task msg unsent h) w =
      by_session s _ i w
        (moved-WiredAt s i (left task)
          (Wired-phase _ _ _ (left task) refl refl (λ e. absurd (cc)) (w i _ h)))
        (moved-Aside s i _)
  SystemStep-Wired (timer {s = s} show i task now token h alive) w =
      by_session s _ i w
        (taken-WiredAt s i (on_tick show s.server task now token) _ (w i _ h) refl refl
          (λ e. (refl, refl)))
        (taken-Aside s i _)
  SystemStep-Wired (stop {s = s} i task h) w =
      by_session s _ i w
        (moved-WiredAt s i (left task)
          (Wired-phase _ _ _ (left task) refl refl (λ e. absurd (cc)) (w i _ h)))
        (moved-Aside s i _)
  SystemStep-Wired (dispose {s = s} i task h) w =
      by_session s _ i w
        (taken-WiredAt s i (on_exit s.server task) _ (w i _ h) refl refl (λ e. absurd (cc)))
        (taken-Aside s i _)
  SystemStep-Wired (close {s = s} i parser h) w =
      by_session s _ i w (closed-WiredAt s i _ _ refl (w i _ h)) (closed-Aside s i _)
  SystemStep-Wired (write_last {s = s} i task now later h) w =
      by_session s _ i w
        (wrote-WiredAt s i _ now
          (Wired-wrote _ (s.sockets i) now later _ _ refl refl refl refl refl (w i _ h)))
        (wrote-Aside s i _ now)
  SystemStep-Wired (finish {s = s} i parser unsent h) w =
      by_session s _ i w (finished-WiredAt s i) (finished-Aside s i)
  SystemStep-Wired (reload {s = s} r) w = w

  -- At any time and for any session that runs: its mailbox holds at most 128 messages, each of them a
  -- line of at most 510 bytes and CR LF, and is open until the task closes it, which it does only when
  -- its client is gone. As long as the task has not left its loop, what is written to its socket with
  -- the rest of the message that it is writing is a sequence of such lines.
  pub SystemReach-Wired : {s : System} → SystemReach x s → (i : UserId) → WiredAt s i
  SystemReach-Wired (boot name config motd password t mailboxes sockets) i session e = absurd (cc)
  SystemReach-Wired (after r step) i session e =
      SystemStep-Wired step (SystemReach-Wired r) i session e
