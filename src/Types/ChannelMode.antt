-- ===== src/Types/ChannelMode.antt =====
-- `ChannelMode` of cirque-core/src/types.rs: the four flags of a channel, and their text form.
use cirque.Base.{
  ℕ, Bool, true, false, ◌&&◌, ◌==◌, if◌then◌else◌, Bytes, codes, [], ◌∷◌, ◌++◌, Result, ok, err,
}
use cirque.Base.Utf8.{first_char_bytes}

pub record ChannelMode : Type 0 where
  pub secret : Bool
  pub topic_protected : Bool
  pub moderated : Bool
  pub no_external : Bool

abbrev pub default : ChannelMode
default = record { secret = false; topic_protected = false; moderated = false; no_external = true }

abbrev pub is_secret : ChannelMode → Bool
is_secret self = self.secret

unfoldable pub with_secret : ChannelMode → ChannelMode
with_secret self = record self { secret = true }

unfoldable pub without_secret : ChannelMode → ChannelMode
without_secret self = record self { secret = false }

abbrev pub is_topic_protected : ChannelMode → Bool
is_topic_protected self = self.topic_protected

unfoldable pub with_topic_protected : ChannelMode → ChannelMode
with_topic_protected self = record self { topic_protected = true }

unfoldable pub without_topic_protected : ChannelMode → ChannelMode
without_topic_protected self = record self { topic_protected = false }

abbrev pub is_moderated : ChannelMode → Bool
is_moderated self = self.moderated

unfoldable pub with_moderated : ChannelMode → ChannelMode
with_moderated self = record self { moderated = true }

unfoldable pub without_moderated : ChannelMode → ChannelMode
without_moderated self = record self { moderated = false }

abbrev pub is_no_external : ChannelMode → Bool
is_no_external self = self.no_external

unfoldable pub with_no_external : ChannelMode → ChannelMode
with_no_external self = record self { no_external = true }

unfoldable pub without_no_external : ChannelMode → ChannelMode
without_no_external self = record self { no_external = false }

abbrev flag_eq : Bool → Bool → Bool
flag_eq true b = b
flag_eq false true = false
flag_eq false false = true

-- the derived `PartialEq`
abbrev pub mode_eq : ChannelMode → ChannelMode → Bool
mode_eq a b =
    flag_eq a.secret b.secret
    && flag_eq a.topic_protected b.topic_protected
    && flag_eq a.moderated b.moderated
    && flag_eq a.no_external b.no_external

-- One round of the fold, on the text from its character on. The characters that it accepts are one
-- byte long.
unfoldable pub try_mode_char : ChannelMode → ℕ → Bytes → Result Bytes ChannelMode
unfolding with_secret with_topic_protected with_moderated with_no_external first_char_bytes
try_mode_char mode c cs =
    if c == b's'
    then ok (with_secret mode)
    else if c == b't'
    then ok (with_topic_protected mode)
    else if c == b'm'
    then ok (with_moderated mode)
    else if c == b'n'
    then ok (with_no_external mode)
    else err (codes "unknown channel modechar '" ++ (first_char_bytes (c ∷ cs) ++ codes "'"))

unfoldable pub try_fold : ChannelMode → Bytes → Result Bytes ChannelMode
unfolding try_mode_char
try_fold mode [] = ok mode
try_fold mode (c ∷ cs) = elim (try_mode_char mode c cs) [ ok m ↦ try_fold m cs | err e ↦ err e ]

-- `TryFrom<&str> for ChannelMode`
unfoldable pub try_from : Bytes → Result Bytes ChannelMode
unfolding try_fold
try_from value = try_fold default value
