-- ===== src/UserState.antt =====
-- The session's state of cirque-core/src/user_state.rs: a client that registers, a registered one,
-- or one that is gone.
use cirque.Base.{ℕ, Option, Bool, true, false}
use cirque.Types.User.{UserId}
use cirque.Timeout.{PingState, TimeoutConfig}
use cirque.Timeout

pub record RegisteringState : Type 0 where
  pub user_id : UserId
  pub ping_state : PingState

-- `RegisteringState::new`, at the time `now`
unfoldable pub new : UserId → ℕ → Option TimeoutConfig → RegisteringState
new user_id now timeout_config = record {
  user_id = user_id;
  ping_state = Timeout.new now timeout_config;
}

pub record RegisteredState : Type 0 where
  pub user_id : UserId
  pub ping_state : PingState

unfoldable pub from_registering_state : RegisteringState → RegisteredState
from_registering_state user_state = record {
  user_id = user_state.user_id;
  ping_state = user_state.ping_state;
}

pub data UserState : Type 0 where
  registering : RegisteringState → UserState
  registered : RegisteredState → UserState
  disconnected : UserState

unfoldable pub is_alive : UserState → Bool
is_alive (registering s) = true
is_alive (registered s) = true
is_alive disconnected = false
