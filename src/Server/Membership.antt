-- ===== src/Server/Membership.antt =====
-- JOIN, PART and NAMES (cirque-core/src/server_state.rs).
use cirque.Base.{
  not, ◌&&◌, if◌then◌else◌, is_empty, Bytes, Option, none, some, unwrap_or, List, [], ◌∷◌, ◌++◌, ok,
  err,
}
use cirque.Base.Map.{HashMap, get, insert, remove, contains_key, modify, keys, id_eq, channel_id_eq}
use cirque.Types.ChannelUserMode
use cirque.Types.ChannelUserMode.{ChannelUserMode, with_op}
use cirque.Types.ChannelMode.{is_secret}
use cirque.Types.Topic
use cirque.Types.Channel.{Channel}
use cirque.Types.Channel
use cirque.Types.User.{UserId, RegisteredUser}
use cirque.Error.{ServerStateError, no_such_channel, not_on_channel}
use cirque.ServerToClient.{Message}
use cirque.UserState.{RegisteredState, registered}
use cirque.Server.State.{ServerStateInner, Outbox, Effect, Reply, send, report}
use cirque.Server.Nickname.{validate_channel_name}
use cirque.Server.Broadcast.{broadcast, announce, collect_nicknames}

abbrev pub done : ServerStateInner → Outbox → Effect
done sv sent = record { sv = sv; sent = sent; result = ok tt }

abbrev pub refused : ServerStateInner → ServerStateError → Effect
refused sv error = record { sv = sv; sent = []; result = err error }

-- `channels.entry(..).or_default()`
abbrev pub channel_or_default : ServerStateInner → Bytes → Channel
channel_or_default self channel_name = unwrap_or (get channel_name self.channels) Channel.default

-- The channel with its new member. The first one is its operator, and sets the channel's mode to
-- the server's default.
unfoldable pub with_member : ServerStateInner → Channel → UserId → Channel
unfolding with_op
with_member self channel user_id =
    if is_empty channel.users
    then record channel {
      mode = self.default_channel_mode;
      users = insert user_id (with_op ChannelUserMode.default) channel.users;
    }
    else record channel { users = insert user_id ChannelUserMode.default channel.users }

-- The messages after the channel was changed.
welcome_member : HashMap UserId RegisteredUser → RegisteredUser → Bytes → Channel → Outbox
unfolding announce Topic.is_valid
welcome_member users user channel_name channel =
    let (sent, nicknames) =
      announce users (Message.join channel_name user.fullspec) channel.users in
    elim nicknames [
      | none ↦ sent
      | some nicknames ↦
          sent
          ++ ((if Topic.is_valid channel.topic
                then send user (Message.rpl_topic user.nickname channel_name (some channel.topic))
                else [])
              ++ send user (
                  Message.names user.nickname (
                    record {
                      channel_name = channel_name;
                      channel_mode = channel.mode;
                      nicknames = nicknames;
                    }
                    ∷ [])))
    ]

unfoldable pub user_joins_channel : ServerStateInner → UserId → Bytes → Effect
unfolding validate_channel_name with_member welcome_member
user_joins_channel self user_id channel_name = elim (get user_id self.users) [
  | none ↦ done self []
  | some user ↦ elim (validate_channel_name user channel_name) [
    | err error ↦ refused self error
    | ok _ ↦
        let channel = channel_or_default self channel_name in
        if contains_key user_id channel.users
        then done (record self { channels = insert channel_name channel self.channels }) []
        else (let channel' = with_member self channel user_id in
            done (record self { channels = insert channel_name channel' self.channels })
              (welcome_member self.users user channel_name channel'))
  ]
]

unfoldable pub user_names_channel : ServerStateInner → UserId → Bytes → Outbox
unfolding collect_nicknames
user_names_channel self user_id channel_name = elim (get user_id self.users) [
  | none ↦ []
  | some user ↦ elim (get channel_name self.channels) [
    | none ↦ send user (Message.end_of_names user.nickname channel_name)
    | some channel ↦
        if is_secret channel.mode && not (contains_key user_id channel.users)
        then send user (Message.end_of_names user.nickname channel_name)
        else elim (collect_nicknames self.users channel.users) [
          | none ↦ []
          | some nicknames ↦ send user (
              Message.names user.nickname (
                record {
                  channel_name = channel_name;
                  channel_mode = channel.mode;
                  nicknames = nicknames;
                }
                ∷ []))
        ]
  ]
]

-- The channel map after a member has left: a channel without members is dropped.
unfoldable pub without_member :
    UserId → Bytes → Channel → HashMap Bytes Channel → HashMap Bytes Channel
without_member user_id channel_name channel channels =
    let users = remove user_id channel.users in
    if is_empty users
    then remove channel_name channels
    else modify channel_name (λ ch. record ch { users = users }) channels

unfoldable pub user_leaves_channel : ServerStateInner → UserId → Bytes → Option Bytes → Effect
unfolding validate_channel_name broadcast without_member
user_leaves_channel self user_id channel_name reason = elim (get user_id self.users) [
  | none ↦ done self []
  | some user ↦ elim (validate_channel_name user channel_name) [
    | err error ↦ refused self error
    | ok _ ↦ elim (get channel_name self.channels) [
      | none ↦ refused self (no_such_channel user.nickname channel_name)
      | some channel ↦
          if not (contains_key user_id channel.users)
          then refused self (not_on_channel user.nickname channel_name)
          else (let (sent, complete) =
                broadcast self.users (Message.part user.fullspec channel_name reason)
                  (keys channel.users) in
              if complete
              then done
                  (record self {
                    channels = without_member user_id channel_name channel self.channels;
                  })
                  sent
              else done self sent)
    ]
  ]
]

-- `for &channel in channels { if let Err(err) = .. { sv.send_error(user_id, err) } }`
unfoldable pub for_each_channel :
    (ServerStateInner → Bytes → Effect)
    → UserId
    → ServerStateInner
    → List Bytes
    → ServerStateInner × Outbox
unfolding report
for_each_channel f user_id sv [] = (sv, [])
for_each_channel f user_id sv (channel ∷ channels) =
    let (sv', sent) = report user_id (f sv channel) in
    let (sv'', sent') = for_each_channel f user_id sv' channels in (sv'', sent ++ sent')

abbrev pub reply_registered : RegisteredState → ServerStateInner × Outbox → Reply
reply_registered user_state p = record { sv = p.0; sent = p.1; user_state = registered user_state }

unfoldable pub user_joins_channels : ServerStateInner → RegisteredState → List Bytes → Reply
unfolding for_each_channel user_joins_channel
user_joins_channels sv user_state channels = reply_registered user_state (
    for_each_channel (λ s c. user_joins_channel s user_state.user_id c) user_state.user_id sv
      channels)

unfoldable pub user_names_channels : ServerStateInner → RegisteredState → List Bytes → Reply
unfolding for_each_channel user_names_channel
user_names_channels sv user_state channels = reply_registered user_state (
    for_each_channel (λ s c. done s (user_names_channel s user_state.user_id c)) user_state.user_id
      sv channels)

unfoldable pub user_leaves_channels :
    ServerStateInner → RegisteredState → List Bytes → Option Bytes → Reply
unfolding for_each_channel user_leaves_channel
user_leaves_channels sv user_state channels reason = reply_registered user_state (
    for_each_channel (λ s c. user_leaves_channel s user_state.user_id c reason) user_state.user_id
      sv channels)
