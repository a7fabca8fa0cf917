-- ===== src/Transport/Throttler.antt =====
-- cirque-server/src/message_throttler.rs. Instants and durations are nanoseconds.
pub mod Laws
use cirque.Base.{ℕ, ◌+◌, ◌-◌, ◌/◌, ◌==◌, ltb, if◌then◌else◌, Option, none, some, List, [], ◌∷◌}

pub record MessageThrottler : Type 0 where
  pub last_timestamp : ℕ
  pub threshold : ℕ

-- `Duration::from_secs(1)`
abbrev pub second : ℕ
second = 1000000000

-- `MessageThrottler::new` at the time `now`; the division of a duration by 0 panics.
unfoldable pub new : ℕ → ℕ → Option MessageThrottler
new now max_messages_per_second =
    if max_messages_per_second == 0
    then none
    else some (record { last_timestamp = now; threshold = second / max_messages_per_second })

-- `maybe_slow_down`, called `gap` after the time that is kept. A sleep lasts at least as long as
-- asked; `late` is the time by which it, or the call itself, lasts longer.
unfoldable pub maybe_slow_down : ℕ → ℕ → MessageThrottler → MessageThrottler
maybe_slow_down gap late self =
    let now = self.last_timestamp + gap in
    let elapsed = now - self.last_timestamp in
    if ltb elapsed self.threshold
    then record self { last_timestamp = now + (self.threshold - elapsed) + late }
    else record self { last_timestamp = now + late }
