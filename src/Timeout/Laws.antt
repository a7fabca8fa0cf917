-- ===== src/Timeout/Laws.antt =====
-- The ping state of a client over its whole history.
use cirque.Base.{
  ℕ, ◌-◌, ◌≤◌, false, Bytes, bytes_eq_iff, Option, none, some, List, [], ◌∷◌, ◌≡◌, ◌≢◌, refl, arith,
  inl, inr, Option-cases,
}
use cirque.Timeout.{
  TimeoutConfig, Ping, PingState, all_good, timeout, new, on_send_ping, on_receive_pong,
  aggressively_reduce_timeout, check_status, same_pong,
}

-- What happens to a ping state.
pub data Event : Type 0 where
  send : Bytes → ℕ → Event
  receive : Bytes → Event
  reduce : Event

unfoldable pub after : PingState → Event → PingState
after p (send token now) = on_send_ping p token now
after p (receive token) = on_receive_pong p token
after p reduce = aggressively_reduce_timeout p

unfoldable pub run : PingState → List Event → PingState
unfolding after
run p [] = p
run p (e ∷ es) = run (after p e) es

after-unconfigured :
    (p : PingState) (e : Event) → p.timeout_config ≡ none → (after p e).timeout_config ≡ none
unfolding after on_send_ping on_receive_pong aggressively_reduce_timeout
after-unconfigured p (send token t) h = ground arith
after-unconfigured p (receive token) h = ground arith
after-unconfigured p reduce h = ground arith

run-all_good :
    (now : ℕ) (p : PingState) (es : List Event)
    → p.timeout_config ≡ none
    → check_status (run p es) now ≡ all_good
unfolding run check_status
run-all_good now p [] h = ground arith
run-all_good now p (e ∷ es) h = run-all_good now (after p e) es (after-unconfigured p e h)

-- Without a timeout configuration a client is never pinged and never timed out, whatever the
-- history of pings, pongs and reductions, and at any time.
run-unconfigured :
    (created now : ℕ) (es : List Event) → check_status (run (new created none) es) now ≡ all_good
unfolding new
run-unconfigured created now es = run-all_good now _ es refl

after-tokens-le :
    (p : PingState) (e : Event)
    → p.timeout_reduction_tokens ≤ 10
    → (after p e).timeout_reduction_tokens ≤ 10
unfolding after on_send_ping on_receive_pong aggressively_reduce_timeout
after-tokens-le p (send token t) h = ground arith
after-tokens-le p (receive token) h = ground arith
after-tokens-le p reduce h = omega arith

run-tokens-le_from :
    (p : PingState) (es : List Event)
    → p.timeout_reduction_tokens ≤ 10
    → (run p es).timeout_reduction_tokens ≤ 10
unfolding run
run-tokens-le_from p [] h = h
run-tokens-le_from p (e ∷ es) h = run-tokens-le_from (after p e) es (after-tokens-le p e h)

-- After any history of a client there are at most ten timeout reduction tokens, so the `u8` that
-- counts them cannot overflow.
pub run-tokens-le :
    (created : ℕ) (c : Option TimeoutConfig) (es : List Event)
    → (run (new created c) es).timeout_reduction_tokens ≤ 10
unfolding new
run-tokens-le created c es = run-tokens-le_from _ es (omega arith)

-- A client is timed out only for a ping that was sent, after the time fixed for that ping when it
-- was sent, and only if the last pong does not carry its token; the reported duration is the time
-- since the ping.
pub check_status-timeout :
    (p : PingState) (now d : ℕ)
    → check_status p now ≡ timeout d
    → (ping : Ping) × (p.last_sent ≡ some ping)
      × (ping.timeout ≤ d)
      × (d ≡ now - ping.at)
      × (same_pong p.last_received ping.token ≡ false)
unfolding check_status
check_status-timeout p now d h = elim (Option-cases p.last_sent) [
  | inl e ↦ ground arith
  | inr (ping, e) ↦ elim (Option-cases p.last_received) [
    | inl g ↦ (ping, e, ground arith, ground arith, ground arith)
    | inr (pong, g) ↦ (
      ping,
      e,
      ground arith,
      ground arith,
      ground (arith, bytes_eq_iff ping.token pong.token, bytes_eq_iff pong.token ping.token),
    )
  ]
]

module _ (p : PingState) (c : TimeoutConfig) (configured : p.timeout_config ≡ some c) where
  -- A client that answered its last ping is never timed out, however late it is asked.
  check_status-answered :
      (now later d : ℕ) (token : Bytes)
      → check_status (on_receive_pong (on_send_ping p token now) token) later ≢ timeout d
  unfolding check_status on_send_ping on_receive_pong
  check_status-answered now later d token h = elim (Option-cases p.last_received) [
    | inl e ↦ ground (arith, bytes_eq_iff token token)
    | inr (pong, e) ↦ ground (
      arith,
      bytes_eq_iff token token,
      bytes_eq_iff pong.token token,
      bytes_eq_iff token pong.token,
    )
  ]
