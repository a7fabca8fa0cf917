-- ===== src/Server/Messaging.antt =====
-- PRIVMSG, NOTICE and AWAY (cirque-core/src/server_state.rs).
use cirque.Base.{if◌then◌else◌, is_empty, Bytes, Option, none, some, [], ◌++◌, ok, err}
use cirque.Base.Map.{get, modify, keys, id_eq}
use cirque.Types.User.{UserId, RegisteredUser, is_away}
use cirque.Types.Channel.{ensure_user_can_send_message}
use cirque.Error.{no_text_to_send, no_such_nick}
use cirque.ServerToClient.{Message}
use cirque.UserState.{RegisteredState}
use cirque.Server.State.{ServerStateInner, Outbox, Effect, Reply, send, report}
use cirque.Server.Nickname.{LookupResult, lookup_target}
use cirque.Server.Broadcast.{send_to_each, others}
use cirque.Server.Membership.{done, refused, reply_registered}

-- The two arms of the `match` on the target.
unfoldable pub message_target :
    ServerStateInner → RegisteredUser → UserId → Bytes → Bytes → LookupResult → Effect
unfolding ensure_user_can_send_message send_to_each others
message_target self user user_id target content (LookupResult.channel channel_name channel) =
    elim (ensure_user_can_send_message channel user target) [
      | err error ↦ refused self error
      | ok _ ↦ done self (
          send_to_each self.users (Message.priv_msg user.fullspec channel_name content)
            (others user_id (keys channel.users)))
    ]
message_target self user user_id target content (LookupResult.registered_user target_user) =
    done self (
      send target_user (Message.priv_msg user.fullspec target content)
      ++ elim target_user.away_message [
        | none ↦ []
        | some away_message ↦
            send user (Message.rpl_away user.nickname target_user.nickname away_message)
      ])

unfoldable pub user_messages_target_inner : ServerStateInner → UserId → Bytes → Bytes → Effect
unfolding lookup_target message_target
user_messages_target_inner self user_id target content = elim (get user_id self.users) [
  | none ↦ done self []
  | some user ↦
      if is_empty content
      then refused self (no_text_to_send user.nickname)
      else elim (lookup_target self target) [
        | none ↦ refused self (no_such_nick user.nickname target)
        | some obj ↦ message_target self user user_id target content obj
      ]
]

unfoldable pub user_messages_target : ServerStateInner → RegisteredState → Bytes → Bytes → Reply
unfolding user_messages_target_inner report
user_messages_target sv user_state target content =
    reply_registered user_state
      (report user_state.user_id (user_messages_target_inner sv user_state.user_id target content))

-- On a channel the source builds a `PrivMsg` here, and a `Notice` for a user.
unfoldable pub notice_target :
    ServerStateInner → RegisteredUser → UserId → Bytes → Bytes → LookupResult → Outbox
unfolding ensure_user_can_send_message send_to_each others
notice_target self user user_id target content (LookupResult.channel channel_name channel) =
    elim (ensure_user_can_send_message channel user target) [
      | err error ↦ []
      | ok _ ↦
          send_to_each self.users (Message.priv_msg user.fullspec channel_name content)
            (others user_id (keys channel.users))
    ]
notice_target self user user_id target content (LookupResult.registered_user target_user) =
    send target_user (Message.notice user.fullspec target content)

unfoldable pub user_notices_target_inner : ServerStateInner → UserId → Bytes → Bytes → Outbox
unfolding lookup_target notice_target
user_notices_target_inner self user_id target content = elim (get user_id self.users) [
  | none ↦ []
  | some user ↦ if is_empty content then [] else elim (lookup_target self target) [
    | none ↦ []
    | some obj ↦ notice_target self user user_id target content obj
  ]
]

unfoldable pub user_notices_target : ServerStateInner → RegisteredState → Bytes → Bytes → Reply
unfolding user_notices_target_inner
user_notices_target sv user_state target content =
    reply_registered user_state (sv, user_notices_target_inner sv user_state.user_id target content)

abbrev pub set_away : Option Bytes → RegisteredUser → RegisteredUser
set_away away_message user = record user { away_message = away_message }

unfoldable pub user_indicates_away : ServerStateInner → RegisteredState → Option Bytes → Reply
user_indicates_away sv user_state away_message = elim (get user_state.user_id sv.users) [
  | none ↦ reply_registered user_state (sv, [])
  | some user ↦ reply_registered user_state (
    record sv { users = modify user_state.user_id (set_away away_message) sv.users },
    send user (
        if is_away (set_away away_message user)
        then Message.now_away user.nickname
        else Message.un_away user.nickname),
  )
]
