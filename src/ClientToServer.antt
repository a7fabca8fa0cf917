-- ===== src/ClientToServer.antt =====
-- cirque-core/src/client_to_server.rs: a parsed line becomes a typed message, or an error.
pub mod Handlers
pub mod ListHandler
pub mod Registry
pub mod Laws
pub mod ListLaws
use cirque.Base.{ℕ, Bytes, List, Option}

pub data ListFilter : Type 0 where
  channel_creation topic_update user_number : ListFilter

pub data ListOperation : Type 0 where
  inf sup : ListOperation

pub record ListOption : Type 0 where
  pub filter : ListFilter
  pub operation : ListOperation
  pub number : ℕ

abbrev pub default : ListOption
default = record { filter = user_number; operation = inf; number = 0 }

pub data Message : Type 0 where
  nick : Bytes → Message
  user : Bytes → Bytes → Message
  pass : Bytes → Message
  ping : Bytes → Message
  pong : Bytes → Message
  join : List Bytes → Message
  names : List Bytes → Message
  get_topic : Bytes → Message
  set_topic : Bytes → Bytes → Message
  ask_mode_channel : Bytes → Message
  change_mode_channel : Bytes → Bytes → Option Bytes → Message
  priv_msg : Bytes → Bytes → Message
  notice : Bytes → Bytes → Message
  part : List Bytes → Option Bytes → Message
  list : Option (List Bytes) → Option (List ListOption) → Message
  motd : Message
  away : Option Bytes → Message
  userhost : List Bytes → Message
  whois : Bytes → Message
  who : Bytes → Message
  lusers : Message
  quit : Option Bytes → Message
  unknown : Bytes → Message
