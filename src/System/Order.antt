-- ===== src/System/Order.antt =====
-- The order of what goes from a mailbox to a socket in cirque-server/src/session.rs.
use cirque.Base.{false, none, some, ◌≡◌, refl, sym, ap, ◌∙◌}
use cirque.Types.User.{UserId}
use cirque.Delivery.Laws.{deliver-Grown}
use cirque.Server.Nickname.{External}
use cirque.System.{
  Session, Turn, start, on_bytes, on_next, on_written, on_tick, on_check, on_exit, left,
}
use cirque.System.Step.{
  System, SystemStep, taken, opened, closed, finished, accept, read, next_line, lock_line, check,
  recv, write, written, write_fails, timer, stop, dispose, close, write_last, finish, reload,
}
use cirque.System.Rounds.{on_lock-cases}
use cirque.System.Lines.{on_next-quiet}
use cirque.System.Wire.{in_loop, pending}
use cirque.System.Aside.{
  set_at-same, taken-Aside, received-Aside, wrote-Aside, moved-Aside, opened-Aside, closed-Aside,
  finished-Aside, Aside-trans,
}
use cirque.System.Stream.{
  Fed, Fed-Grown, Fed-moved, Fed-received, Fed-same, Fed-trans, Fed-wrote, Running, Running-none,
  Running-not, by_session-Fed, unsent,
}

module _ (x : External) where
  taken-Fed :
      (s : System) (i : UserId) (t : Turn) (old : Session)
      → s.sessions i ≡ some old
      → pending t.session.phase ≡ pending old.phase
      → Fed s (taken s i t) i
  unfolding taken
  taken-Fed s i t old h same =
      Fed-Grown s (taken s i t) i (deliver-Grown s.server.message_context t.sent s.mailboxes i) refl
        (ap unsent (set_at-same i (some t.session) s.sessions) ∙ same ∙ ap unsent (sym h))

  taken-here : (s : System) (i : UserId) (t : Turn) → (taken s i t).sessions i ≡ some t.session
  unfolding taken
  taken-here s i t = set_at-same i (some t.session) s.sessions

  -- A session that has left its loop is not asked about.
  left-Fed :
      (s u : System) (i : UserId) (session : Session)
      → u.sessions i ≡ some session
      → in_loop session.phase ≡ false
      → Running s i
      → Running u i
      → Fed s u i
  left-Fed s u i session h out p q = absurd (Running-not u i session h out q)

  SystemStep-Fed :
      {s u : System} → SystemStep x s u → (i : UserId) → Running s i → Running u i → Fed s u i
  unfolding closed on_tick on_written on_bytes on_exit on_check
  SystemStep-Fed (accept {s = s} i now free timed) =
      let t = start s.server i i now in
      by_session-Fed s _ i (λ p q. absurd (Running-none s i free p))
        (λ j h.
          Aside-trans s (opened s i) _ j (opened-Aside s i j h) (taken-Aside (opened s i) i t j h))
  SystemStep-Fed (read {s = s} i task chunk h alive some_bytes fits) =
      by_session-Fed s _ i (λ p q. Fed-moved s i _ (on_bytes task chunk) h refl) (moved-Aside s i _)
  SystemStep-Fed (next_line {s = s} i task now h) =
      let turn = on_next x now s.server task in
      by_session-Fed s (taken s i turn) i
        (λ p q. taken-Fed s i turn _ h (on_next-quiet x now s.server task).0) (taken-Aside s i turn)
  SystemStep-Fed (lock_line {s = s} i task turn h e) =
      let (m, first, same, there) = on_lock-cases x s.server task turn e in
      by_session-Fed s (taken s i turn) i (λ p q. taken-Fed s i turn _ h (ap pending there))
        (taken-Aside s i turn)
  SystemStep-Fed (check {s = s} i task h) =
      let turn = on_check s.server task in
      by_session-Fed s (taken s i turn) i (λ p q. taken-Fed s i turn _ h refl)
        (taken-Aside s i turn)
  SystemStep-Fed (recv {s = s} i task msg rest h alive q) =
      by_session-Fed s _ i (λ p r. Fed-received s i task msg rest h q) (received-Aside s i _ rest)
  SystemStep-Fed (write {s = s} i task msg now later h) =
      by_session-Fed s _ i (λ p q. Fed-wrote s i task msg now later h) (wrote-Aside s i _ now)
  SystemStep-Fed (written {s = s} i task msg h) =
      by_session-Fed s _ i (λ p q. Fed-moved s i _ (on_written task msg) h refl) (moved-Aside s i _)
  SystemStep-Fed (write_fails {s = s} i task msg unsent h) =
      by_session-Fed s _ i
        (left-Fed s _ i (left task) (set_at-same i (some (left task)) s.sessions) refl)
        (moved-Aside s i _)
  SystemStep-Fed (timer {s = s} show i task now token h alive) =
      let turn = on_tick show s.server task now token in
      by_session-Fed s (taken s i turn) i (λ p q. taken-Fed s i turn _ h refl)
        (taken-Aside s i turn)
  SystemStep-Fed (stop {s = s} i task h) =
      by_session-Fed s _ i
        (left-Fed s _ i (left task) (set_at-same i (some (left task)) s.sessions) refl)
        (moved-Aside s i _)
  SystemStep-Fed (dispose {s = s} i task h) =
      let turn = on_exit s.server task in
      by_session-Fed s (taken s i turn) i
        (left-Fed s (taken s i turn) i turn.session (taken-here s i turn) refl)
        (taken-Aside s i turn)
  SystemStep-Fed (close {s = s} i parser h) =
      by_session-Fed s _ i (left-Fed s _ i _ (set_at-same i _ s.sessions) refl) (closed-Aside s i _)
  SystemStep-Fed (write_last {s = s} i task now later h) =
      by_session-Fed s _ i (left-Fed s _ i _ (set_at-same i _ s.sessions) refl)
        (wrote-Aside s i _ now)
  SystemStep-Fed (finish {s = s} i parser unsent h) =
      by_session-Fed s _ i
        (λ p q. absurd (Running-none (finished s i) i (set_at-same i none s.sessions) q))
        (finished-Aside s i)
  SystemStep-Fed (reload {s = s} r) = λ j p q. Fed-same s _ j refl

  -- A piece of history in which the task of one client stays in its loop.
  pub data Serving (i : UserId) : System → System → Type 0 where
    still : {s : System} → Running s i → Serving i s s
    later : {s t u : System} → Serving i s t → SystemStep x t u → Running u i → Serving i s u

  Serving-Running : (i : UserId) {s u : System} → Serving i s u → Running u i
  Serving-Running i (still r) = r
  Serving-Running i (later v step r) = r

  -- As long as the task of a client stays in its loop, what is written to its socket, then the rest of
  -- the message that it is writing, then what waits in its mailbox, only becomes longer as a whole, by
  -- whole lines at its end, whatever the other tasks do meanwhile and however slowly the client reads:
  -- nothing that was delivered is lost, repeated, or changes its place.
  pub Serving-Fed : (i : UserId) {s u : System} → Serving i s u → Fed s u i
  Serving-Fed i (still {s = s} r) = Fed-same s s i refl
  Serving-Fed i (later v step r) =
      Fed-trans _ _ _ i (Serving-Fed i v) (SystemStep-Fed step i (Serving-Running i v) r)
