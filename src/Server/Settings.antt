-- ===== src/Server/Settings.antt =====
-- MODE (cirque-core/src/server_state.rs).
use cirque.Base.{
  Bool, not, if◌then◌else◌, Bytes, bytes_eq, codes, find, Option, none, some, [], ok, err,
}
use cirque.Base.Map.{get, modify, keys, values, id_eq, channel_id_eq}
use cirque.Base.Utf8.{skip_first_char}
use cirque.Types.ChannelUserMode
use cirque.Types.ChannelUserMode.{ChannelUserMode}
use cirque.Types.ChannelMode
use cirque.Types.ChannelMode.{ChannelMode}
use cirque.Types.User.{UserId, RegisteredUser}
use cirque.Types.Channel.{Channel, ensure_user_can_set_channel_mode}
use cirque.Error.{
  no_such_channel, no_such_nick, need_more_params, user_not_in_channel, unknown_mode,
}
use cirque.ServerToClient.{Message}
use cirque.UserState.{RegisteredState}
use cirque.Server.State.{ServerStateInner, Outbox, Effect, Reply, send, report}
use cirque.Server.Nickname.{validate_channel_name}
use cirque.Server.Broadcast.{broadcast}
use cirque.Server.Membership.{done, refused, reply_registered}

unfoldable pub user_asks_channel_mode_inner : ServerStateInner → UserId → Bytes → Effect
unfolding validate_channel_name
user_asks_channel_mode_inner self user_id channel_name = elim (get user_id self.users) [
  | none ↦ done self []
  | some user ↦ elim (validate_channel_name user channel_name) [
    | err error ↦ refused self error
    | ok _ ↦ elim (get channel_name self.channels) [
      | none ↦ refused self (no_such_channel user.nickname channel_name)
      | some channel ↦
          done self (send user (Message.channel_mode user.nickname channel_name channel.mode))
    ]
  ]
]

unfoldable pub user_asks_channel_mode : ServerStateInner → RegisteredState → Bytes → Reply
unfolding user_asks_channel_mode_inner report
user_asks_channel_mode sv user_state channel_name =
    reply_registered user_state
      (report user_state.user_id (user_asks_channel_mode_inner sv user_state.user_id channel_name))

-- What a mode string asks for: the arms of the `match modechar`.
pub data ModeChange : Type 0 where
  channel_change : (ChannelMode → ChannelMode) → ModeChange
  member_change : (ChannelUserMode → ChannelUserMode) → ModeChange
  unknown_change : ModeChange

unfoldable pub mode_change : Bytes → ModeChange
unfolding ChannelMode.with_secret ChannelMode.without_secret ChannelMode.with_topic_protected
    ChannelMode.without_topic_protected ChannelMode.with_moderated ChannelMode.without_moderated
    ChannelMode.with_no_external ChannelMode.without_no_external ChannelUserMode.with_op
    ChannelUserMode.without_op ChannelUserMode.with_voice ChannelUserMode.without_voice
mode_change modechar =
    if bytes_eq modechar (codes "+s")
    then channel_change ChannelMode.with_secret
    else if bytes_eq modechar (codes "-s")
    then channel_change ChannelMode.without_secret
    else if bytes_eq modechar (codes "+t")
    then channel_change ChannelMode.with_topic_protected
    else if bytes_eq modechar (codes "-t")
    then channel_change ChannelMode.without_topic_protected
    else if bytes_eq modechar (codes "+m")
    then channel_change ChannelMode.with_moderated
    else if bytes_eq modechar (codes "-m")
    then channel_change ChannelMode.without_moderated
    else if bytes_eq modechar (codes "+n")
    then channel_change ChannelMode.with_no_external
    else if bytes_eq modechar (codes "-n")
    then channel_change ChannelMode.without_no_external
    else if bytes_eq modechar (codes "+o")
    then member_change ChannelUserMode.with_op
    else if bytes_eq modechar (codes "-o")
    then member_change ChannelUserMode.without_op
    else if bytes_eq modechar (codes "+v")
    then member_change ChannelUserMode.with_voice
    else if bytes_eq modechar (codes "-v")
    then member_change ChannelUserMode.without_voice
    else unknown_change

abbrev pub set_mode : ChannelMode → Channel → Channel
set_mode mode channel = record channel { mode = mode }

abbrev pub set_user_mode : UserId → ChannelUserMode → Channel → Channel
set_user_mode user_id user_mode channel = record channel {
  users = modify user_id (λ _. user_mode) channel.users;
}

abbrev pub write_channel : ServerStateInner → Bytes → (Channel → Channel) → ServerStateInner
write_channel self channel_name f = record self { channels = modify channel_name f self.channels }

-- The loop that tells the members; it may end early, and the call succeeds all the same.
abbrev tell_members : ServerStateInner → Channel → Message → Outbox
tell_members self channel message = (broadcast self.users message (keys channel.users)).0

abbrev pub nickname_is : Bytes → RegisteredUser → Bool
nickname_is target u = bytes_eq u.nickname target

-- The arm of `+o`, `-o`, `+v` and `-v`.
unfoldable pub change_member :
    ServerStateInner
    → RegisteredUser
    → Bytes
    → Channel
    → Bytes
    → Option Bytes
    → (ChannelUserMode → ChannelUserMode)
    → Effect
unfolding broadcast
change_member self user channel_name channel modechar none change =
    refused self (need_more_params user.nickname (codes "MODE"))
change_member self user channel_name channel modechar (some target) change =
    elim (find (nickname_is target) (values self.users)) [
      | none ↦ refused self (no_such_nick user.nickname target)
      | some target_user ↦ elim (get target_user.user_id channel.users) [
        | none ↦ refused self (user_not_in_channel user.nickname target channel_name)
        | some cur_target_mode ↦
            let new_target_mode = change cur_target_mode in
            if not (ChannelUserMode.mode_eq cur_target_mode new_target_mode)
            then done
                (write_channel self channel_name
                  (set_user_mode target_user.user_id new_target_mode))
                (tell_members self channel
                  (Message.mode user.fullspec channel_name modechar (some target)))
            else done self []
      ]
    ]

unfoldable pub change_channel :
    ServerStateInner
    → RegisteredUser
    → Bytes
    → Channel
    → Bytes
    → (ChannelMode → ChannelMode)
    → Effect
unfolding broadcast
change_channel self user channel_name channel modechar change =
    let new_channel_mode = change channel.mode in
    if not (ChannelMode.mode_eq new_channel_mode channel.mode)
    then done (write_channel self channel_name (set_mode new_channel_mode))
        (tell_members self channel (Message.mode user.fullspec channel_name modechar none))
    else done self []

unfoldable pub apply_change :
    ServerStateInner → RegisteredUser → Bytes → Channel → Bytes → Option Bytes → ModeChange → Effect
unfolding change_member change_channel
apply_change self user channel_name channel modechar param (channel_change change) =
    change_channel self user channel_name channel modechar change
apply_change self user channel_name channel modechar param (member_change change) =
    change_member self user channel_name channel modechar param change
apply_change self user channel_name channel modechar param unknown_change =
    refused self (unknown_mode user.nickname (skip_first_char modechar))

unfoldable pub user_changes_channel_mode_inner :
    ServerStateInner → UserId → Bytes → Bytes → Option Bytes → Effect
unfolding validate_channel_name ensure_user_can_set_channel_mode apply_change mode_change
user_changes_channel_mode_inner self user_id channel_name modechar param =
    elim (get user_id self.users) [
      | none ↦ done self []
      | some user ↦ elim (validate_channel_name user channel_name) [
        | err error ↦ refused self error
        | ok _ ↦ elim (get channel_name self.channels) [
          | none ↦ refused self (no_such_channel user.nickname channel_name)
          | some channel ↦ elim (ensure_user_can_set_channel_mode channel user channel_name) [
            | err error ↦ refused self error
            | ok _ ↦
                apply_change self user channel_name channel modechar param (mode_change modechar)
          ]
        ]
      ]
    ]

unfoldable pub user_changes_channel_mode :
    ServerStateInner → RegisteredState → Bytes → Bytes → Option Bytes → Reply
unfolding user_changes_channel_mode_inner report
user_changes_channel_mode sv user_state channel_name modechar param = reply_registered user_state (
    report user_state.user_id
      (user_changes_channel_mode_inner sv user_state.user_id channel_name modechar param))
