-- ===== src/Tests/Timers.antt =====
-- The theorems about pings, at a client with a timeout of ten, reduced to two.
use cirque.Base.{◌-◌, ◌≤◌, false, codes, some, [], ◌∷◌, ◌≡◌, refl}
use cirque.Timeout.{
  TimeoutConfig, Ping, PingState, all_good, timeout, on_receive_pong, on_send_ping, check_status,
  same_pong, get_timeout, reduced_rate,
}
use cirque.Timeout
use cirque.Timeout.Laws.{receive, reduce, run, run-tokens-le, check_status-timeout}

abbrev config : TimeoutConfig
config = record { base_timeout = 10; reduced_timeout = 2 }

abbrev client : PingState
client = Timeout.new 0 (some config)

run-tokens-le_example :
    (run client (reduce ∷ reduce ∷ receive (codes "x") ∷ [])).timeout_reduction_tokens ≤ 10
run-tokens-le_example = run-tokens-le 0 (some config) (reduce ∷ reduce ∷ receive (codes "x") ∷ [])

check_status-timeout_example :
    (ping : Ping) × ((on_send_ping client (codes "t") 11).last_sent ≡ some ping)
    × (ping.timeout ≤ 11)
    × (11 ≡ 22 - ping.at)
    × (same_pong (on_send_ping client (codes "t") 11).last_received ping.token ≡ false)
unfolding check_status on_send_ping Timeout.new
check_status-timeout_example = check_status-timeout (on_send_ping client (codes "t") 11) 22 11 refl
