-- ===== src/Session/Reads.antt =====
-- How the input was cut into reads does not matter to a session.
use cirque.Base.{
  ℕ, suc, ◌+◌, ◌-◌, sym, ◌<◌, Bytes, length, length-append, take-all, take, List, [], ◌∷◌, ◌++◌,
  ◌≡◌, refl, ◌∙◌, ap, arith, Option-cases, inl, inr,
}
use mathlib.Core.List.{append_assoc}
use cirque.Parser.Message.{parse_message}
use cirque.Parser.Stream.{StreamParser, remaining_mut, read_into, consume_iter}
use cirque.Parser.Laws.{all_lines}
use cirque.Parser.Splits.{lines-append, lines_rest-length}
use cirque.UserState.{UserState}
use cirque.Server.State.{ServerStateInner, Reply}
use cirque.Server.Nickname.{External}
use cirque.Session.{handle_message}
use cirque.Session.Task.{Task, Round, handle_lines, on_read}

module _ (x : External) (clock : ℕ → ℕ) where
  -- A reply goes in front of a later one.
  abbrev after : Reply → Reply → Reply
  after q r = record { sv = r.sv; sent = q.sent ++ r.sent; user_state = r.user_state }

  -- One list of lines after the other.
  abbrev then_lines : ℕ → Reply → List Bytes → Reply
  then_lines k r later = after r (handle_lines x clock k r.sv r.user_state later)

  handle_lines-append :
      (k : ℕ) (sv : ServerStateInner) (state : UserState) (first later : List Bytes)
      → handle_lines x clock k sv state (first ++ later)
        ≡ then_lines (k + length first) (handle_lines x clock k sv state first) later
  unfolding handle_lines
  handle_lines-append k sv state [] later =
      let same : k ≡ k + 0 = omega arith in ap (λ n. handle_lines x clock n sv state later) same
  handle_lines-append k sv state (line ∷ first) later =
      let same : suc k + length first ≡ k + suc (length first) = omega arith in
      elim (Option-cases (parse_message line)) [
        | inl e ↦
            let r = handle_lines x clock (suc k) sv state first in
            rw (e, handle_lines)
              (handle_lines-append (suc k) sv state first later
                ∙ ap (λ n. then_lines n r later) same)
        | inr (m, e) ↦
            let q = handle_message x (clock k) sv state m in
            let r = handle_lines x clock (suc k) q.sv q.user_state first in
            let last = then_lines (k + suc (length first)) r later in
            rw (e, handle_lines)
              (ap (after q) (
                  handle_lines-append (suc k) q.sv q.user_state first later
                  ∙ ap (λ n. then_lines n r later) same)
                ∙ ap (λ out. record { sv = last.sv; sent = out; user_state = last.user_state })
                    (sym (append_assoc q.sent r.sent _)))
      ]

-- What a parser holds after a read that fits.
read_into-whole :
    (p : StreamParser) (chunk : Bytes)
    → length p.buffer + length chunk < p.capacity
    → consume_iter (read_into p chunk) ≡ record p { buffer = p.buffer ++ chunk }
unfolding consume_iter read_into remaining_mut
read_into-whole p chunk h =
    let whole : take (p.capacity - length p.buffer) chunk ≡ chunk =
      take-all _ chunk (omega arith) in
    let sum = length-append p.buffer chunk in
    rw whole (ground (arith, length-append p.buffer chunk))

-- The lines that a read makes whole, if it fits.
abbrev pub lines_of : Task → Bytes → List Bytes
lines_of task chunk = (all_lines (task.stream_parser.buffer ++ chunk)).0

-- There is room for the bytes, and for one more.
abbrev pub Fits : Task → Bytes → Type 0
Fits task chunk = length task.stream_parser.buffer + length chunk < task.stream_parser.capacity

-- A round of the task in terms of the lines.
abbrev round : Task → List Bytes × Bytes → Reply → Round
round task ls r = record {
  sv = r.sv;
  sent = r.sent;
  task = record {
    stream_parser = record { buffer = ls.1; capacity = task.stream_parser.capacity };
    state = r.user_state;
  };
}

-- Both rounds as one.
abbrev pub both : Round → Round → Round
both a b = record { sv = b.sv; sent = a.sent ++ b.sent; task = b.task }

module _ (x : External) (clock : ℕ → ℕ) where
  on_read-whole :
      (k : ℕ) (sv : ServerStateInner) (task : Task) (chunk : Bytes)
      → Fits task chunk
      → on_read x clock k sv task chunk
        ≡ round task
            (all_lines (task.stream_parser.buffer ++ chunk))
            (handle_lines x clock k sv task.state (lines_of task chunk))
  unfolding on_read
  on_read-whole k sv task chunk h = rw (read_into-whole task.stream_parser chunk h) refl

  Fits-later :
      (task : Task) (first later : Bytes)
      → Fits task (first ++ later)
      → (length (all_lines (task.stream_parser.buffer ++ first)).1 + length later
          < task.stream_parser.capacity)
        × (length task.stream_parser.buffer + length first < task.stream_parser.capacity)
  Fits-later task first later h =
      let buf = task.stream_parser.buffer in
      let a = lines_rest-length (length (buf ++ first)) (buf ++ first) in
      let b = length-append buf first in
      let c = length-append first later in (omega arith, omega arith)

  -- What a session does does not depend on how its input was cut into reads: if the input fits into
  -- the buffer of its parser, reading it in two pieces leaves the same server and the same session
  -- behind, and sends the same messages in the same order, as reading it at once. Each line is taken
  -- to be handled at the same time.
  pub on_read-append :
      (k : ℕ) (sv : ServerStateInner) (task : Task) (first later : Bytes)
      → Fits task (first ++ later)
      → on_read x clock k sv task (first ++ later)
        ≡ both (on_read x clock k sv task first) (
            on_read x clock
              (k + length (lines_of task first))
              (on_read x clock k sv task first).sv
              (on_read x clock k sv task first).task
              later)
  on_read-append k sv task first later h =
      let (fits_later, fits_first) = Fits-later task first later h in
      let ls = all_lines (task.stream_parser.buffer ++ first) in
      let r = handle_lines x clock k sv task.state ls.0 in
      let middle = (round task ls r).task in
      let more = all_lines (ls.1 ++ later) in
      let split : all_lines (task.stream_parser.buffer ++ (first ++ later))
          ≡ (ls.0 ++ more.0, more.1) =
        ap all_lines (sym (append_assoc task.stream_parser.buffer first later))
        ∙ lines-append (task.stream_parser.buffer ++ first) later in
      rw (on_read-whole k sv task first fits_first) (
        rw (on_read-whole (k + length ls.0) r.sv middle later fits_later) (
          on_read-whole k sv task (first ++ later) h
          ∙ ap (λ p. round task p (handle_lines x clock k sv task.state p.0)) split
          ∙ ap (round task (ls.0 ++ more.0, more.1))
              (handle_lines-append x clock k sv task.state ls.0 more.0)))
