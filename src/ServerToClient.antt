-- ===== src/ServerToClient.antt =====
-- cirque-core/src/server_to_client.rs: the messages that the server sends.
pub mod Decimal
pub mod Numerics
pub mod Relay
pub mod Format
use cirque.Base.{ℕ, Bool, true, false, Bytes, List, Option}
use cirque.Types.ChannelUserMode.{ChannelUserMode}
use cirque.Types.ChannelMode.{ChannelMode}
use cirque.Types.Topic.{Topic}
use cirque.Error.{ServerStateError}

-- `WelcomeConfig` of cirque-core/src/types.rs
pub record WelcomeConfig : Type 0 where
  pub send_isupport : Bool

pub record ChannelInfo : Type 0 where
  pub name : Bytes
  pub count : ℕ
  pub topic : Bytes

pub record UserhostReply : Type 0 where
  pub nickname : Bytes
  pub is_op : Bool
  pub is_away : Bool
  pub hostname : Bytes

pub record WhoReply : Type 0 where
  pub channel : Option Bytes
  pub channel_user_mode : Option ChannelUserMode
  pub nickname : Bytes
  pub is_op : Bool
  pub is_away : Bool
  pub hostname : Bytes
  pub username : Bytes
  pub realname : Bytes

pub record NamesReply : Type 0 where
  pub channel_name : Bytes
  pub channel_mode : ChannelMode
  pub nicknames : List (Bytes × ChannelUserMode)

pub data Message : Type 0 where
  welcome : (nickname user_fullspec : Bytes) (welcome_config : WelcomeConfig) → Message
  join : (channel user_fullspec : Bytes) → Message
  nick : (previous_user_fullspec nickname : Bytes) → Message
  names : (client : Bytes) (names : List NamesReply) → Message
  end_of_names : (client channel : Bytes) → Message
  rpl_topic : (client channel : Bytes) (topic : Option Topic) → Message
  topic : (user_fullspec channel : Bytes) (topic : Topic) → Message
  ping : (token : Bytes) → Message
  pong : (token : Bytes) → Message
  mode : (user_fullspec target modechar : Bytes) (param : Option Bytes) → Message
  channel_mode : (client channel : Bytes) (mode : ChannelMode) → Message
  priv_msg : (from_user target content : Bytes) → Message
  notice : (from_user target content : Bytes) → Message
  motd : (client : Bytes) (motd : Option (List Bytes)) → Message
  l_users :
      (client : Bytes) (n_operators n_unknown_connections n_channels n_clients n_other_servers : ℕ)
      (extra_info : Bool)
      → Message
  part : (user_fullspec channel : Bytes) (reason : Option Bytes) → Message
  list : (client : Bytes) (infos : List ChannelInfo) → Message
  now_away : (client : Bytes) → Message
  un_away : (client : Bytes) → Message
  rpl_away : (client target_nickname away_message : Bytes) → Message
  rpl_userhost : (client : Bytes) (info : List UserhostReply) → Message
  rpl_whois :
      (client target_nickname : Bytes) (away_message : Option Bytes)
      (hostname username realname : Bytes)
      → Message
  rpl_end_of_whois : (client target_nickname : Bytes) → Message
  who : (client mask : Bytes) (replies : List WhoReply) → Message
  quit : (user_fullspec reason : Bytes) → Message
  fatal_error : (reason : Bytes) → Message
  err : ServerStateError → Message

unfoldable pub is_important : Message → Bool
is_important (join _ _) = true
is_important (priv_msg _ _ _) = true
is_important (notice _ _ _) = true
is_important (part _ _ _) = true
is_important _ = false
