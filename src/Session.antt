-- ===== src/Session.antt =====
-- The dispatch of cirque-core/src/user_state.rs: a client's message or the tick of its timer becomes
-- one operation of the server.
pub mod Task
pub mod Reads
pub mod Room
pub mod Locks
pub mod Invalid
pub mod PrivateMessage
use cirque.Base.{ℕ, Bytes, some, [], ok, err}
use cirque.Timeout.{all_good, timeout, need_to_send, on_receive_pong, on_send_ping, check_status}
use cirque.Timeout
use cirque.Parser.Message.{Message as Parsed}
use cirque.ClientToServer.{Message}
use cirque.ClientToServer.Registry.{try_from}
use cirque.UserState.{
  UserState, RegisteringState, RegisteredState, registering, registered, disconnected,
}
use cirque.Server.State.{ServerStateInner, Reply}
use cirque.Server.Nickname.{External}
use cirque.Server.Registration.{
  ruser_sends_invalid_message, ruser_uses_password, ruser_uses_nick, ruser_uses_username,
  ruser_disconnects_voluntarily, ruser_pings, ruser_sends_unknown_command,
  ruser_sends_command_but_is_not_registered, send_ping_to_ruser,
}
use cirque.Server.Membership.{user_joins_channels, user_names_channels, user_leaves_channels}
use cirque.Server.Departure.{user_changes_nick, user_disconnects_voluntarily}
use cirque.Server.Messaging.{user_messages_target, user_notices_target, user_indicates_away}
use cirque.Server.Settings.{user_asks_channel_mode, user_changes_channel_mode}
use cirque.Server.Topics.{user_sets_topic, user_wants_topic}
use cirque.Server.Queries.{
  user_pings, send_ping_to_user, user_sends_unknown_command, user_sends_invalid_message,
  user_wants_motd, user_sends_list_info, user_asks_userhosts, user_asks_whois, user_asks_who,
  user_asks_lusers,
}

abbrev pub unchanged : ServerStateInner → UserState → Reply
unchanged sv user_state = record { sv = sv; sent = []; user_state = user_state }

abbrev pong_registering : RegisteringState → Bytes → RegisteringState
pong_registering self token = record self { ping_state = on_receive_pong self.ping_state token }

abbrev pong_registered : RegisteredState → Bytes → RegisteredState
pong_registered self token = record self { ping_state = on_receive_pong self.ping_state token }

-- The `match` of `RegisteringState::handle_message`.
unfoldable pub dispatch_registering :
    External → ServerStateInner → RegisteringState → Message → Reply
dispatch_registering x sv self (Message.pass password) = ruser_uses_password sv self password
dispatch_registering x sv self (Message.nick nick) = ruser_uses_nick x sv self nick
dispatch_registering x sv self (Message.user username realname) =
    ruser_uses_username sv self username realname
dispatch_registering x sv self (Message.quit reason) = ruser_disconnects_voluntarily sv self reason
dispatch_registering x sv self (Message.ping token) = ruser_pings sv self token
dispatch_registering x sv self (Message.pong token) =
    unchanged sv (registering (pong_registering self token))
dispatch_registering x sv self (Message.unknown command) =
    ruser_sends_unknown_command sv self command
dispatch_registering x sv self (Message.priv_msg target content) =
    ruser_sends_command_but_is_not_registered sv self
dispatch_registering x sv self _ = unchanged sv (registering self)

-- The `match` of `RegisteredState::handle_message`; `now` is the system time in seconds.
unfoldable pub dispatch_registered :
    External → ℕ → ServerStateInner → RegisteredState → Message → Reply
dispatch_registered x now sv self (Message.join channels) = user_joins_channels sv self channels
dispatch_registered x now sv self (Message.names channels) = user_names_channels sv self channels
dispatch_registered x now sv self (Message.nick nick) = user_changes_nick x sv self nick
dispatch_registered x now sv self (Message.part channels reason) =
    user_leaves_channels sv self channels reason
dispatch_registered x now sv self (Message.ask_mode_channel channel) =
    user_asks_channel_mode sv self channel
dispatch_registered x now sv self (Message.change_mode_channel channel modechar param) =
    user_changes_channel_mode sv self channel modechar param
dispatch_registered x now sv self (Message.ping token) = user_pings sv self token
dispatch_registered x now sv self (Message.pong token) =
    unchanged sv (registered (pong_registered self token))
dispatch_registered x now sv self (Message.quit reason) =
    user_disconnects_voluntarily sv self reason
dispatch_registered x now sv self (Message.priv_msg target content) =
    user_messages_target sv self target content
dispatch_registered x now sv self (Message.notice target content) =
    user_notices_target sv self target content
dispatch_registered x now sv self (Message.set_topic target content) =
    user_sets_topic now sv self target content
dispatch_registered x now sv self (Message.get_topic target) = user_wants_topic sv self target
dispatch_registered x now sv self Message.motd = user_wants_motd sv self
dispatch_registered x now sv self (Message.away away_message) =
    user_indicates_away sv self away_message
dispatch_registered x now sv self (Message.userhost nicknames) =
    user_asks_userhosts sv self nicknames
dispatch_registered x now sv self (Message.whois nickname) = user_asks_whois sv self nickname
dispatch_registered x now sv self (Message.who mask) = user_asks_who sv self mask
dispatch_registered x now sv self Message.lusers = user_asks_lusers sv self
dispatch_registered x now sv self (Message.unknown command) =
    user_sends_unknown_command sv self command
dispatch_registered x now sv self (Message.list list_channels list_option) =
    user_sends_list_info sv self now list_channels list_option
dispatch_registered x now sv self (Message.user _ _) = unchanged sv (registered self)
dispatch_registered x now sv self (Message.pass _) = unchanged sv (registered self)

-- `UserState::handle_message`
unfoldable pub handle_message : External → ℕ → ServerStateInner → UserState → Parsed → Reply
unfolding try_from dispatch_registering dispatch_registered
handle_message x now sv (registering state) message = elim (try_from message) [
  | ok m ↦ dispatch_registering x sv state m
  | err error ↦ ruser_sends_invalid_message sv state error
]
handle_message x now sv (registered state) message = elim (try_from message) [
  | ok m ↦ dispatch_registered x now sv state m
  | err error ↦ user_sends_invalid_message sv state error
]
handle_message x now sv disconnected message = unchanged sv disconnected

-- `UserState::aggressively_reduce_timeout`
unfoldable pub aggressively_reduce_timeout : UserState → UserState
aggressively_reduce_timeout (registering s) =
    registering (record s { ping_state = Timeout.aggressively_reduce_timeout s.ping_state })
aggressively_reduce_timeout (registered s) =
    registered (record s { ping_state = Timeout.aggressively_reduce_timeout s.ping_state })
aggressively_reduce_timeout disconnected = disconnected

-- `UserState::check_timeout` at the instant `now`, with a fresh token for a ping. How a duration is
-- printed in the reason is `show`.
unfoldable pub check_timeout : (ℕ → Bytes) → ServerStateInner → UserState → ℕ → Bytes → Reply
unfolding check_status on_send_ping
check_timeout show sv (registering state) now token = elim (check_status state.ping_state now) [
  | all_good ↦ unchanged sv (registering state)
  | timeout duration ↦ ruser_disconnects_voluntarily sv state (some (show duration))
  | need_to_send ↦
      send_ping_to_ruser sv (record state { ping_state = on_send_ping state.ping_state token now })
        token
]
check_timeout show sv (registered state) now token = elim (check_status state.ping_state now) [
  | all_good ↦ unchanged sv (registered state)
  | timeout duration ↦ user_disconnects_voluntarily sv state (some (show duration))
  | need_to_send ↦
      send_ping_to_user sv (record state { ping_state = on_send_ping state.ping_state token now })
        token
]
check_timeout show sv disconnected now token = unchanged sv disconnected
