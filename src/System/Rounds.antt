-- ===== src/System/Rounds.antt =====
-- The rounds over the lines of a read (cirque-server/src/session.rs).
use cirque.Base.{ℕ, none, some, ◌≡◌, refl, inl, inr, arith, Option-cases, ◌⊎◌}
use cirque.Server.State.{ServerStateInner}
use cirque.Server.Nickname.{External}
use cirque.Parser.Message.{Message}
use cirque.Parser.Stream.{next}
use cirque.Session.{handle_message}
use cirque.Session.Locks.{locked}
use cirque.Session.Task.{Task}
use cirque.System.{Turn, on_next, on_lock, checking}

-- What one round over the lines does: nothing, or what one message does.
pub on_next-cases :
    (x : External) (now : ℕ) (sv : ServerStateInner) (task : Task)
    → ((on_next x now sv task).sv ≡ sv) × ((on_next x now sv task).session.task.state ≡ task.state)
      ⊎ ((m : Message) × (((on_next x now sv task).sv ≡ (handle_message x now sv task.state m).sv)
            × ((on_next x now sv task).session.task.state
                ≡ (handle_message x now sv task.state m).user_state)))
unfolding on_next
on_next-cases x now sv task = elim (Option-cases (next task.stream_parser.buffer).0) [
  | inl e ↦ inl (rw (e, on_next) (refl, refl))
  | inr (none, e) ↦ inl (rw (e, on_next) (refl, refl))
  | inr (some m, e) ↦ inr (m, (rw (e, on_next) (refl, refl)))
]

-- What the part of a round up to the first lock leaves.
pub on_lock-cases :
    (x : External) (sv : ServerStateInner) (task : Task) (t : Turn)
    → on_lock x sv task ≡ some t
    → (m : Message) × (locked x sv task.state m ≡ some t.sv)
      × (t.session.task.state ≡ task.state)
      × (t.session.phase ≡ checking)
unfolding on_lock
on_lock-cases x sv task t h = elim (Option-cases (next task.stream_parser.buffer).0) [
  | inl e ↦ absurd (ground arith)
  | inr (none, e) ↦ absurd (ground arith)
  | inr (some m, e) ↦ elim (Option-cases (locked x sv task.state m)) [
    | inl k ↦ absurd (ground arith)
    | inr (sv', k) ↦ (m, ground arith, ground arith, ground arith)
  ]
]
