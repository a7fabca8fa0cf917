-- ===== src/Server/Queries.antt =====
-- The operations of registered users that only read the state (cirque-core/src/server_state.rs).
use Prim.Native.Nat.{◌^◌}
use cirque.Base.{
  ℕ, ◌+◌, ◌-◌, ◌/◌, ◌%◌, Bool, true, false, not, ◌&&◌, ◌||◌, ltb, if◌then◌else◌, Bytes, bytes_eq,
  codes, find, keep, take, length, Option, none, some, List, [], ◌∷◌, ◌++◌, map,
}
use cirque.Base.Map.{HashMap, get, values, contains_key, id_eq, channel_id_eq}
use cirque.Types.ChannelUserMode.{ChannelUserMode}
use cirque.Types.ChannelMode.{is_secret}
use cirque.Types.User.{UserId, RegisteredUser, is_away, shown_hostname}
use cirque.Types.Channel.{Channel}
use cirque.Error.{
  MessageDecodingError, from_decoding_error_with_client, unknown_command, no_such_nick,
}
use cirque.ServerToClient.{Message, ChannelInfo, UserhostReply, WhoReply}
use cirque.ClientToServer.{ListOption, channel_creation, topic_update, user_number, inf, sup}
use cirque.UserState.{RegisteredState, disconnected}
use cirque.Server.State.{ServerStateInner, Outbox, Reply, send, send_error}
use cirque.Server.Nickname.{LookupResult, lookup_target}
use cirque.Server.Membership.{reply_registered}

-- `let Some(user) = self.users.get(&user_id) else { return };` and the messages to that user.
abbrev pub answer : ServerStateInner → RegisteredState → (RegisteredUser → Outbox) → Reply
answer sv user_state f = elim (get user_state.user_id sv.users) [
  | none ↦ reply_registered user_state (sv, [])
  | some user ↦ reply_registered user_state (sv, f user)
]

-- `u64` division and subtraction of `filter_channel`; the subtraction wraps, as a release build's.
abbrev wrapping_sub : ℕ → ℕ → ℕ
wrapping_sub a b = (a + 2 ^ 64 - b) % 2 ^ 64

-- `now` is `SystemTime::now()` in seconds since the epoch.
unfoldable pub filter_channel : ℕ → ListOption → Channel → Bool
filter_channel now option channel =
    let age = wrapping_sub (channel.topic.ts / 60) (now / 60) in
    elim option.filter [
      | channel_creation ↦ false
      | topic_update ↦ elim option.operation [
        | inf ↦ ltb age option.number
        | sup ↦ ltb option.number age
      ]
      | user_number ↦ elim option.operation [
        | inf ↦ ltb option.number (length channel.users)
        | sup ↦ ltb (length channel.users) option.number
      ]
    ]

-- `is_valid` after the loop over the options
unfoldable pub passes_all : ℕ → List ListOption → Channel → Bool
unfolding filter_channel
passes_all now [] channel = true
passes_all now (option ∷ options) channel =
    filter_channel now option channel && passes_all now options channel

abbrev passes : ℕ → Option (List ListOption) → Channel → Bool
passes now none channel = true
passes now (some options) channel = passes_all now options channel

-- The channels by name, or all of them.
unfoldable pub selected_channels : HashMap Bytes Channel → List Bytes → HashMap Bytes Channel
selected_channels channels [] = []
selected_channels channels (name ∷ names) =
    let rest = selected_channels channels names in
    elim (get name channels) [ none ↦ rest | some channel ↦ (name, channel) ∷ rest ]

abbrev channels_to_list : HashMap Bytes Channel → Option (List Bytes) → HashMap Bytes Channel
channels_to_list channels none = channels
channels_to_list channels (some names) = selected_channels channels names

unfoldable pub is_listed : ℕ → UserId → Option (List ListOption) → Bytes × Channel → Bool
unfolding passes_all
is_listed now user_id options (name, channel) =
    (not (is_secret channel.mode) || contains_key user_id channel.users)
    && passes now options channel

abbrev channel_info : Bytes × Channel → ChannelInfo
channel_info (name, channel) = record {
  name = name;
  count = length channel.users;
  topic = channel.topic.content;
}

abbrev who_reply : Option Bytes → Option ChannelUserMode → RegisteredUser → WhoReply
who_reply channel channel_user_mode user = record {
  channel = channel;
  channel_user_mode = channel_user_mode;
  nickname = user.nickname;
  is_op = false;
  is_away = is_away user;
  hostname = shown_hostname user;
  username = user.username;
  realname = user.realname;
}

-- The loop over the members of a channel; `none` is the early return.
unfoldable pub who_members :
    HashMap UserId RegisteredUser → Bytes → HashMap UserId ChannelUserMode → Option (List WhoReply)
who_members users channel_name [] = some []
who_members users channel_name ((user_id, user_mode) ∷ members) =
    let later = who_members users channel_name members in
    elim (get user_id users) [
      | none ↦ none
      | some user ↦ elim later [
        | none ↦ none
        | some replies ↦ some (who_reply (some channel_name) (some user_mode) user ∷ replies)
      ]
    ]

unfoldable pub who_replies : ServerStateInner → Bytes → Option (List WhoReply)
unfolding lookup_target who_members
who_replies self mask = elim (lookup_target self mask) [
  | some target ↦ elim target [
    | LookupResult.channel channel_name channel ↦ who_members self.users channel_name channel.users
    | LookupResult.registered_user user ↦ some (who_reply none none user ∷ [])
  ]
  | none ↦
      if bytes_eq mask (codes "*")
      then some (map (who_reply none none) (take 10 (values self.users)))
      else some []
]

abbrev nickname_is : Bytes → RegisteredUser → Bool
nickname_is target u = bytes_eq u.nickname target

abbrev userhost_reply : RegisteredUser → UserhostReply
userhost_reply user = record {
  nickname = user.nickname;
  is_op = false;
  is_away = is_away user;
  hostname = shown_hostname user;
}

unfoldable pub userhost_replies : ServerStateInner → List Bytes → List UserhostReply
userhost_replies self [] = []
userhost_replies self (nick ∷ nicknames) =
    let rest = userhost_replies self nicknames in
    elim (find (nickname_is nick) (values self.users)) [
      | none ↦ rest
      | some user ↦ userhost_reply user ∷ rest
    ]

module _ (sv : ServerStateInner) (user_state : RegisteredState) where
  unfoldable pub user_pings : Bytes → Reply
  user_pings token = answer sv user_state (λ user. send user (Message.pong token))

  unfoldable pub send_ping_to_user : Bytes → Reply
  send_ping_to_user token = elim (get user_state.user_id sv.users) [
    | none ↦ record { sv = sv; sent = []; user_state = disconnected }
    | some user ↦ reply_registered user_state (sv, send user (Message.ping token))
  ]

  unfoldable pub user_sends_unknown_command : Bytes → Reply
  user_sends_unknown_command command =
      answer sv user_state (λ user. send user (Message.err (unknown_command user.nickname command)))

  unfoldable pub user_sends_invalid_message : MessageDecodingError → Reply
  unfolding from_decoding_error_with_client send_error
  user_sends_invalid_message error = answer sv user_state (λ user.
      elim (from_decoding_error_with_client error user.nickname) [
        | none ↦ []
        | some e ↦ send_error sv user_state.user_id e
      ])

  unfoldable pub user_wants_motd : Reply
  user_wants_motd = answer sv user_state (λ user. send user (Message.motd user.nickname sv.motd))

  unfoldable pub user_sends_list_info : ℕ → Option (List Bytes) → Option (List ListOption) → Reply
  unfolding selected_channels is_listed
  user_sends_list_info now list_channels list_options = answer sv user_state (λ user. send user (
      Message.list user.nickname (
        map channel_info (
          keep (is_listed now user_state.user_id list_options)
            (channels_to_list sv.channels list_channels)))))

  unfoldable pub user_asks_userhosts : List Bytes → Reply
  unfolding userhost_replies
  user_asks_userhosts nicknames =
      answer sv user_state
        (λ user. send user (Message.rpl_userhost user.nickname (userhost_replies sv nicknames)))

  unfoldable pub user_asks_whois : Bytes → Reply
  user_asks_whois nickname = answer sv user_state (λ user.
      elim (find (nickname_is nickname) (values sv.users)) [
        | none ↦
            send user (Message.err (no_such_nick user.nickname nickname))
            ++ send user (Message.rpl_end_of_whois user.nickname nickname)
        | some target_user ↦ send user (
            Message.rpl_whois user.nickname nickname target_user.away_message
              (shown_hostname target_user) target_user.username target_user.realname)
      ])

  unfoldable pub user_asks_who : Bytes → Reply
  unfolding who_replies
  user_asks_who mask = answer sv user_state (λ user. elim (who_replies sv mask) [
    | none ↦ []
    | some replies ↦ send user (Message.who user.nickname mask replies)
  ])

  unfoldable pub user_asks_lusers : Reply
  user_asks_lusers = answer sv user_state (λ user. send user (
      Message.l_users user.nickname 0 (length sv.registering_users) (length sv.channels)
        (length sv.users) 0 true))
