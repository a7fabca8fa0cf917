-- ===== src/Timeout.antt =====
-- cirque-core/src/timeout.rs: when a client is pinged and when it has timed out. An `Instant` and a
-- `Duration` are numbers of nanoseconds; `Instant - Instant` stops at 0, as it does in Rust.
pub mod Laws
use cirque.Base.{
  ℕ, ◌-◌, Bool, true, false, not, ltb, ◌==◌, if◌then◌else◌, Bytes, bytes_eq, Option, none, some,
}

pub record TimeoutConfig : Type 0 where
  pub base_timeout : ℕ
  pub reduced_timeout : ℕ

unfoldable pub get_timeout : TimeoutConfig → Bool → ℕ
get_timeout self reduced_rate = if reduced_rate then self.reduced_timeout else self.base_timeout

pub record Ping : Type 0 where
  pub token : Bytes
  pub at : ℕ
  pub timeout : ℕ

pub record Pong : Type 0 where
  pub token : Bytes

pub record PingState : Type 0 where
  pub created : ℕ
  pub last_sent : Option Ping
  pub last_received : Option Pong
  pub timeout_reduction_tokens : ℕ
  pub timeout_config : Option TimeoutConfig

pub data PingStatus : Type 0 where
  all_good : PingStatus
  timeout : ℕ → PingStatus
  need_to_send : PingStatus

unfoldable pub new : ℕ → Option TimeoutConfig → PingState
new now timeout_config = record {
  created = now;
  last_sent = none;
  last_received = none;
  timeout_reduction_tokens = 0;
  timeout_config = timeout_config;
}

abbrev pub reduced_rate : PingState → Bool
reduced_rate self = not (self.timeout_reduction_tokens == 0)

unfoldable pub on_send_ping : PingState → Bytes → ℕ → PingState
unfolding get_timeout
on_send_ping self token now = elim self.timeout_config [
  | none ↦ self
  | some timeout_config ↦ record self {
    last_sent = some (record {
      token = token;
      at = now;
      timeout = get_timeout timeout_config (reduced_rate self);
    });
  }
]

-- `self.last_received == new`
abbrev pub same_pong : Option Pong → Bytes → Bool
same_pong none token = false
same_pong (some pong) token = bytes_eq pong.token token

unfoldable pub on_receive_pong : PingState → Bytes → PingState
on_receive_pong self token = if same_pong self.last_received token then self else record self {
  last_received = some (record { token = token });
  timeout_reduction_tokens = self.timeout_reduction_tokens - 1;
}

unfoldable pub aggressively_reduce_timeout : PingState → PingState
aggressively_reduce_timeout self = record self { timeout_reduction_tokens = 10 }

-- The four arms of the `match`.
status : ℕ → ℕ → Option Ping → Option Pong → ℕ → PingStatus
status now created none none cur_timeout =
    if ltb (now - created) cur_timeout then all_good else need_to_send
status now created none (some pong) cur_timeout = need_to_send
status now created (some ping) none cur_timeout =
    if ltb (now - ping.at) ping.timeout then all_good else timeout (now - ping.at)
status now created (some ping) (some pong) cur_timeout =
    if ltb (now - ping.at) ping.timeout
    then all_good
    else if bytes_eq ping.token pong.token
    then need_to_send
    else timeout (now - ping.at)

unfoldable pub check_status : PingState → ℕ → PingStatus
unfolding status get_timeout
check_status self now = elim self.timeout_config [
  | none ↦ all_good
  | some timeout_config ↦
      status now self.created self.last_sent self.last_received
        (get_timeout timeout_config (reduced_rate self))
]
