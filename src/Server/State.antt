-- ===== src/Server/State.antt =====
-- `ServerStateInner` and what an operation on it gives back.
--
-- An operation runs under the server's lock, so it is a function of the state. What it sends is a
-- list of envelopes in the order of the calls of `send`; Delivery brings them to the mailboxes.
use cirque.Base.{ℕ, Bytes, Option, none, some, List, [], ◌∷◌, ◌++◌, ok, err}
use cirque.Base.Map.{HashMap, get, id_eq}
use cirque.Types.ChannelMode.{ChannelMode}
use cirque.Types.ChannelMode
use cirque.Types.User.{UserId, MailboxHandle, RegisteredUser, RegisteringUser}
use cirque.Types.Channel.{Channel}
use cirque.Error.{ServerStateError, Outcome}
use cirque.ServerToClient.{Message, WelcomeConfig}
use cirque.Timeout.{TimeoutConfig}
use cirque.UserState.{UserState}

pub record MessageContext : Type 0 where
  pub server_name : Bytes

pub record ServerStateInner : Type 0 where
  pub users : HashMap UserId RegisteredUser
  pub registering_users : HashMap UserId RegisteringUser
  pub channels : HashMap Bytes Channel
  pub server_name : Bytes
  pub welcome_config : WelcomeConfig
  pub password : Option Bytes
  pub motd : Option (List Bytes)
  pub default_channel_mode : ChannelMode
  pub message_context : MessageContext
  pub messages_per_second_limit : ℕ
  pub timeout_config : Option TimeoutConfig

-- One call of `send`: the mailbox and the message.
pub record Envelope : Type 0 where
  pub to : MailboxHandle
  pub message : Message

abbrev pub Outbox : Type 0
Outbox = List Envelope

abbrev pub envelope : MailboxHandle → Message → Outbox
envelope to message = record { to = to; message = message } ∷ []

-- `RegisteredUser::send`
abbrev pub send : RegisteredUser → Message → Outbox
send user message = envelope user.mailbox message

-- `RegisteringUser::send`
abbrev pub send_registering : RegisteringUser → Message → Outbox
send_registering user message = envelope user.mailbox message

-- What a method of `ServerStateInner` that may fail gives back.
pub record Effect : Type 0 where
  pub sv : ServerStateInner
  pub sent : Outbox
  pub result : Outcome

-- What a method of `ServerState` gives back.
pub record Reply : Type 0 where
  pub sv : ServerStateInner
  pub sent : Outbox
  pub user_state : UserState

-- `ServerState::new`
unfoldable pub new :
    Bytes
    → WelcomeConfig
    → Option (List Bytes)
    → Option Bytes
    → Option TimeoutConfig
    → ServerStateInner
new server_name welcome_config motd password timeout_config = record {
  users = [];
  registering_users = [];
  channels = [];
  server_name = server_name;
  welcome_config = welcome_config;
  password = password;
  motd = motd;
  default_channel_mode = ChannelMode.default;
  message_context = record { server_name = server_name };
  messages_per_second_limit = 10;
  timeout_config = timeout_config;
}

unfoldable pub send_error : ServerStateInner → UserId → ServerStateError → Outbox
send_error self user_id error = elim (get user_id self.users) [
  | some user ↦ send user (Message.err error)
  | none ↦ elim (get user_id self.registering_users) [
    | some user ↦ send_registering user (Message.err error)
    | none ↦ []
  ]
]

-- `if let Err(err) = ... { sv.send_error(user_id, err) }`
unfoldable pub report : UserId → Effect → ServerStateInner × Outbox
unfolding send_error
report user_id effect = elim effect.result [
  | ok _ ↦ (effect.sv, effect.sent)
  | err error ↦ (effect.sv, effect.sent ++ send_error effect.sv user_id error)
]

-- The setters that a reload of the configuration calls.
module _ (self : ServerStateInner) where
  unfoldable pub set_server_name : Bytes → ServerStateInner
  set_server_name server_name = record self {
    server_name = server_name;
    message_context = record { server_name = server_name };
  }

  unfoldable pub set_password : Option Bytes → ServerStateInner
  set_password password = record self { password = password }

  unfoldable pub set_motd : Option (List Bytes) → ServerStateInner
  set_motd motd = record self { motd = motd }

  unfoldable pub set_messages_per_second_limit : ℕ → ServerStateInner
  set_messages_per_second_limit n = record self { messages_per_second_limit = n }

  unfoldable pub set_default_channel_mode : ChannelMode → ServerStateInner
  set_default_channel_mode mode = record self { default_channel_mode = mode }

  unfoldable pub set_timeout_config : Option TimeoutConfig → ServerStateInner
  set_timeout_config timeout_config = record self { timeout_config = timeout_config }
