-- ===== src/Server/Topics.antt =====
-- TOPIC, its query and its change (cirque-core/src/server_state.rs).
use cirque.Base.{ℕ, not, if◌then◌else◌, Bytes, none, some, [], ok, err}
use cirque.Base.Map.{get, contains_key, keys, id_eq, channel_id_eq}
use cirque.Types.Topic
use cirque.Types.Topic.{Topic}
use cirque.Types.User.{UserId}
use cirque.Types.Channel.{Channel, ensure_user_can_set_topic}
use cirque.Error.{no_such_channel, not_on_channel}
use cirque.ServerToClient.{Message}
use cirque.UserState.{RegisteredState}
use cirque.Server.State.{ServerStateInner, Effect, Reply, send, report}
use cirque.Server.Broadcast.{send_to_each}
use cirque.Server.Membership.{done, refused, reply_registered}
use cirque.Server.Settings.{write_channel}

abbrev pub set_topic : Topic → Channel → Channel
set_topic topic channel = record channel { topic = topic }

-- `now` is `SystemTime::now()` in seconds since the epoch.
unfoldable pub user_sets_topic_inner : ℕ → ServerStateInner → UserId → Bytes → Bytes → Effect
unfolding ensure_user_can_set_topic send_to_each
user_sets_topic_inner now self user_id channel_name content = elim (get user_id self.users) [
  | none ↦ done self []
  | some user ↦ elim (get channel_name self.channels) [
    | none ↦ refused self (no_such_channel user.nickname channel_name)
    | some channel ↦ elim (ensure_user_can_set_topic channel user channel_name) [
      | err error ↦ refused self error
      | ok _ ↦
          let topic : Topic = (record {
            content = content;
            ts = now;
            from_nickname = user.nickname;
          }) in
          done (write_channel self channel_name (set_topic topic)) (
            send_to_each self.users (Message.topic user.fullspec channel_name topic)
              (keys channel.users))
    ]
  ]
]

unfoldable pub user_sets_topic : ℕ → ServerStateInner → RegisteredState → Bytes → Bytes → Reply
unfolding user_sets_topic_inner report
user_sets_topic now sv user_state channel_name content = reply_registered user_state (
    report user_state.user_id
      (user_sets_topic_inner now sv user_state.user_id channel_name content))

unfoldable pub user_wants_topic_inner : ServerStateInner → UserId → Bytes → Effect
unfolding Topic.is_valid
user_wants_topic_inner self user_id channel_name = elim (get user_id self.users) [
  | none ↦ done self []
  | some user ↦ elim (get channel_name self.channels) [
    | none ↦ refused self (no_such_channel user.nickname channel_name)
    | some channel ↦
        if not (contains_key user_id channel.users)
        then refused self (not_on_channel user.nickname channel_name)
        else done self (
            send user (
              Message.rpl_topic user.nickname channel_name
                (if Topic.is_valid channel.topic then some channel.topic else none)))
  ]
]

unfoldable pub user_wants_topic : ServerStateInner → RegisteredState → Bytes → Reply
unfolding user_wants_topic_inner report
user_wants_topic sv user_state channel_name =
    reply_registered user_state
      (report user_state.user_id (user_wants_topic_inner sv user_state.user_id channel_name))
