-- ===== src/Tests/Throttling.antt =====
-- The theorem about the throttler, at three messages in a row under a limit of ten in a second.
use cirque.Base.{◌+◌, ◌*◌, ◌/◌, ◌≤◌, List, [], ◌∷◌, refl, length}
use cirque.Transport.Throttler.{MessageThrottler, new, second}
use cirque.Transport.Throttler.Laws.{Call, run, run-rate}

abbrev ten_a_second : MessageThrottler
ten_a_second = record { last_timestamp = 5; threshold = 100000000 }

abbrev at_once : Call
at_once = record { gap = 0; late = 7 }

abbrev three : List Call
three = at_once ∷ at_once ∷ at_once ∷ []

run-rate_example :
    (run ten_a_second []).last_timestamp + length three * (second / 10)
    ≤ (run (run ten_a_second []) three).last_timestamp
unfolding new
run-rate_example = (run-rate 5 10 ten_a_second [] three refl).0
