-- ===== src/Types/ChannelUserMode.antt =====
-- `ChannelUserMode` of cirque-core/src/types.rs: what a member may do in one channel.
use cirque.Base.{Bool, true, false, ◌&&◌}

pub record ChannelUserMode : Type 0 where
  pub op : Bool
  pub voice : Bool

abbrev pub default : ChannelUserMode
default = record { op = false; voice = false }

unfoldable pub with_op : ChannelUserMode → ChannelUserMode
with_op self = record self { op = true }

unfoldable pub without_op : ChannelUserMode → ChannelUserMode
without_op self = record self { op = false }

unfoldable pub with_voice : ChannelUserMode → ChannelUserMode
with_voice self = record self { voice = true }

-- The source writes `true` here too.
unfoldable pub without_voice : ChannelUserMode → ChannelUserMode
without_voice self = record self { voice = true }

abbrev pub is_op : ChannelUserMode → Bool
is_op self = self.op

abbrev pub is_voice : ChannelUserMode → Bool
is_voice self = self.voice

abbrev flag_eq : Bool → Bool → Bool
flag_eq true b = b
flag_eq false true = false
flag_eq false false = true

-- the derived `PartialEq`
abbrev pub mode_eq : ChannelUserMode → ChannelUserMode → Bool
mode_eq a b = flag_eq a.op b.op && flag_eq a.voice b.voice
