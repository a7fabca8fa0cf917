-- ===== src/Types/Channel.antt =====
-- `Channel` of cirque-core/src/types.rs, with the three guards of its operations.
use cirque.Base.{
  Bool, true, false, not, ◌&&◌, ◌||◌, if◌then◌else◌, Bytes, [], Option, none, some, is_some, ok,
  err, ok_or, ◌>>=◌,
}
use cirque.Base.Map.{HashMap, get, id_eq}
use cirque.Types.ChannelUserMode.{ChannelUserMode, is_op, is_voice}
use cirque.Types.ChannelMode.{ChannelMode, is_topic_protected, is_moderated, is_no_external}
use cirque.Types.ChannelMode
use cirque.Types.Topic.{Topic}
use cirque.Types.Topic
use cirque.Types.User.{UserId, RegisteredUser}
use cirque.Error.{Outcome, not_on_channel, chan_op_privs_needed, cannot_send_to_chan}

pub record Channel : Type 0 where
  pub topic : Topic
  pub users : HashMap UserId ChannelUserMode
  pub mode : ChannelMode

abbrev pub default : Channel
default = record { topic = Topic.default; users = []; mode = ChannelMode.default }

unfoldable pub ensure_user_can_set_topic : Channel → RegisteredUser → Bytes → Outcome
ensure_user_can_set_topic self user channel_name = do
  user_mode ← ok_or (get user.user_id self.users) (not_on_channel user.nickname channel_name)
  if not (is_op user_mode) && is_topic_protected self.mode
      then err (chan_op_privs_needed user.nickname channel_name)
      else ok tt

unfoldable pub ensure_user_can_set_channel_mode : Channel → RegisteredUser → Bytes → Outcome
ensure_user_can_set_channel_mode self user channel_name = do
  user_mode ← ok_or (get user.user_id self.users) (not_on_channel user.nickname channel_name)
  if not (is_op user_mode) then err (chan_op_privs_needed user.nickname channel_name) else ok tt

abbrev pub can_speak : Option ChannelUserMode → Bool
can_speak none = false
can_speak (some user_mode) = is_op user_mode || is_voice user_mode

unfoldable pub ensure_user_can_send_message : Channel → RegisteredUser → Bytes → Outcome
ensure_user_can_send_message self user channel_name =
    let user_mode = get user.user_id self.users in
    let can_talk = (if not (is_moderated self.mode) then true else can_speak user_mode) in
    if is_no_external self.mode && not (is_some user_mode)
    then err (cannot_send_to_chan user.nickname channel_name)
    else if not can_talk
    then err (cannot_send_to_chan user.nickname channel_name)
    else ok tt
