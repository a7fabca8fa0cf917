-- ===== src/Transport/Throttler/Laws.antt =====
-- How many messages of a client are handled in a time.
use cirque.Base.{◌∙◌, ℕ, ◌+◌, ◌*◌, ◌/◌, ◌≤◌, length, some, List, [], ◌∷◌, ◌≡◌, refl, arith}
use cirque.Transport.Throttler.{MessageThrottler, new, second, maybe_slow_down}

-- A call that comes `gap` after the one before has ended, and lasts `late` longer than it must.
pub record Call : Type 0 where
  pub gap : ℕ
  pub late : ℕ

-- One call after each message.
unfoldable pub run : MessageThrottler → List Call → MessageThrottler
run t [] = t
run t (c ∷ cs) = run (maybe_slow_down c.gap c.late t) cs

maybe_slow_down-threshold :
    (gap late : ℕ) (t : MessageThrottler)
    → ((maybe_slow_down gap late t).threshold ≡ t.threshold)
      × (t.last_timestamp + t.threshold ≤ (maybe_slow_down gap late t).last_timestamp)
unfolding maybe_slow_down
maybe_slow_down-threshold gap late t = (ground arith, ground arith)

run-spacing :
    (d : ℕ) (t : MessageThrottler) (calls : List Call)
    → t.threshold ≡ d
    → t.last_timestamp + length calls * d ≤ (run t calls).last_timestamp
unfolding run
run-spacing d t [] h = omega arith
run-spacing d t (c ∷ cs) h =
    let (same, step) = maybe_slow_down-threshold c.gap c.late t in
    let rest = run-spacing d (maybe_slow_down c.gap c.late t) cs (same ∙ h) in omega arith

run-threshold : (t : MessageThrottler) (calls : List Call) → (run t calls).threshold ≡ t.threshold
unfolding run
run-threshold t [] = refl
run-threshold t (c ∷ cs) =
    run-threshold (maybe_slow_down c.gap c.late t) cs ∙ (maybe_slow_down-threshold c.gap c.late t).0

new-threshold :
    (now max : ℕ) (t : MessageThrottler) → new now max ≡ some t → t.threshold ≡ second / max
unfolding new
new-threshold now max t h = ground arith

-- At any point of a session whose limit is `max` messages in a second, handling `n` more messages
-- takes at least `n` times a `max`-th of a second (rounded down to nanoseconds), and a client that is
-- slower than this does not wait at all.
pub run-rate :
    (now max : ℕ) (t : MessageThrottler) (earlier later : List Call)
    → new now max ≡ some t
    → ((run t earlier).last_timestamp + length later * (second / max)
        ≤ (run (run t earlier) later).last_timestamp)
      × ((gap late : ℕ)
          → second / max ≤ gap
          → (maybe_slow_down gap late (run t earlier)).last_timestamp
            ≡ (run t earlier).last_timestamp + gap + late)
unfolding maybe_slow_down
run-rate now max t earlier later h =
    let same = run-threshold t earlier ∙ new-threshold now max t h in
    (run-spacing (second / max) (run t earlier) later same, λ gap late slow. ground arith)
