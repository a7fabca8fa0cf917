-- ===== src/Server/ReadOnly.antt =====
-- The operations that answer and leave the state as it is.
use cirque.Base.{ℕ, Bytes, Option, List, ◌≡◌, refl, ◌∙◌, arith, inl, inr, Option-cases}
use cirque.Base.Map.{get, id_eq, channel_id_eq}
use cirque.Error.{MessageDecodingError}
use cirque.ClientToServer.{ListOption}
use cirque.Types.User.{UserId, RegisteredUser}
use cirque.UserState.{RegisteringState, RegisteredState}
use cirque.Server.State.{ServerStateInner, Outbox}
use cirque.Server.Registration.{
  ruser_sends_invalid_message, ruser_pings, send_ping_to_ruser, ruser_sends_unknown_command,
  ruser_sends_command_but_is_not_registered,
}
use cirque.Server.Messaging.{
  user_messages_target, user_messages_target_inner, message_target, user_notices_target,
}
use cirque.Server.Nickname.{LookupResult, lookup_target}
use cirque.Server.Settings.{user_asks_channel_mode, user_asks_channel_mode_inner}
use cirque.Server.Topics.{user_wants_topic, user_wants_topic_inner}
use cirque.Server.Queries.{
  answer, user_pings, send_ping_to_user, user_sends_unknown_command, user_sends_invalid_message,
  user_wants_motd, user_sends_list_info, user_asks_userhosts, user_asks_whois, user_asks_who,
  user_asks_lusers,
}
use cirque.Server.Valid.Membership.{report-fst}

module _ (s : ServerStateInner) (st : RegisteringState) where
  pub sv-ruser_sends_invalid_message :
      (e : MessageDecodingError) → (ruser_sends_invalid_message s st e).sv ≡ s
  unfolding ruser_sends_invalid_message
  sv-ruser_sends_invalid_message e = ground arith

  pub sv-ruser_pings : (token : Bytes) → (ruser_pings s st token).sv ≡ s
  unfolding ruser_pings
  sv-ruser_pings token = ground arith

  pub sv-send_ping_to_ruser : (token : Bytes) → (send_ping_to_ruser s st token).sv ≡ s
  unfolding send_ping_to_ruser
  sv-send_ping_to_ruser token = ground arith

  pub sv-ruser_sends_unknown_command : (c : Bytes) → (ruser_sends_unknown_command s st c).sv ≡ s
  unfolding ruser_sends_unknown_command
  sv-ruser_sends_unknown_command c = ground arith

  pub sv-ruser_sends_command_but_is_not_registered :
      (ruser_sends_command_but_is_not_registered s st).sv ≡ s
  unfolding ruser_sends_command_but_is_not_registered
  sv-ruser_sends_command_but_is_not_registered = ground arith

module _ (s : ServerStateInner) where
  sv-message_target :
      (user : RegisteredUser) (i : UserId) (target content : Bytes) (obj : LookupResult)
      → (message_target s user i target content obj).sv ≡ s
  unfolding message_target
  sv-message_target user i target content (LookupResult.channel name ch) = ground arith
  sv-message_target user i target content (LookupResult.registered_user u) = refl

  sv-user_messages_target_inner :
      (i : UserId) (target content : Bytes) → (user_messages_target_inner s i target content).sv ≡ s
  unfolding user_messages_target_inner
  sv-user_messages_target_inner i target content = elim (Option-cases (get i s.users)) [
    | inl e ↦ ground arith
    | inr (user, e) ↦ elim (Option-cases (lookup_target s target)) [
      | inl g ↦ ground arith
      | inr (obj, g) ↦ ground (arith, sv-message_target user i target content obj)
    ]
  ]

  sv-user_asks_channel_mode_inner :
      (i : UserId) (c : Bytes) → (user_asks_channel_mode_inner s i c).sv ≡ s
  unfolding user_asks_channel_mode_inner
  sv-user_asks_channel_mode_inner i c = ground arith

  sv-user_wants_topic_inner : (i : UserId) (c : Bytes) → (user_wants_topic_inner s i c).sv ≡ s
  unfolding user_wants_topic_inner
  sv-user_wants_topic_inner i c = ground arith

sv-answer :
    (s : ServerStateInner) (st : RegisteredState) (f : RegisteredUser → Outbox)
    → (answer s st f).sv ≡ s
sv-answer s st f = ground arith

module _ (s : ServerStateInner) (st : RegisteredState) where
  pub sv-user_messages_target :
      (target content : Bytes) → (user_messages_target s st target content).sv ≡ s
  unfolding user_messages_target
  sv-user_messages_target target content =
      report-fst st.user_id (user_messages_target_inner s st.user_id target content)
      ∙ sv-user_messages_target_inner s st.user_id target content

  pub sv-user_notices_target :
      (target content : Bytes) → (user_notices_target s st target content).sv ≡ s
  unfolding user_notices_target
  sv-user_notices_target target content = refl

  pub sv-user_asks_channel_mode : (c : Bytes) → (user_asks_channel_mode s st c).sv ≡ s
  unfolding user_asks_channel_mode
  sv-user_asks_channel_mode c =
      report-fst st.user_id (user_asks_channel_mode_inner s st.user_id c)
      ∙ sv-user_asks_channel_mode_inner s st.user_id c

  pub sv-user_wants_topic : (c : Bytes) → (user_wants_topic s st c).sv ≡ s
  unfolding user_wants_topic
  sv-user_wants_topic c =
      report-fst st.user_id (user_wants_topic_inner s st.user_id c)
      ∙ sv-user_wants_topic_inner s st.user_id c

  pub sv-user_pings : (token : Bytes) → (user_pings s st token).sv ≡ s
  unfolding user_pings
  sv-user_pings token = ground arith

  pub sv-send_ping_to_user : (token : Bytes) → (send_ping_to_user s st token).sv ≡ s
  unfolding send_ping_to_user
  sv-send_ping_to_user token = ground arith

  pub sv-user_sends_unknown_command : (c : Bytes) → (user_sends_unknown_command s st c).sv ≡ s
  unfolding user_sends_unknown_command
  sv-user_sends_unknown_command c = ground arith

  pub sv-user_sends_invalid_message :
      (e : MessageDecodingError) → (user_sends_invalid_message s st e).sv ≡ s
  unfolding user_sends_invalid_message
  sv-user_sends_invalid_message e = ground arith

  pub sv-user_wants_motd : (user_wants_motd s st).sv ≡ s
  unfolding user_wants_motd
  sv-user_wants_motd = ground arith

  pub sv-user_sends_list_info :
      (now : ℕ) (names : Option (List Bytes)) (options : Option (List ListOption))
      → (user_sends_list_info s st now names options).sv ≡ s
  unfolding user_sends_list_info
  sv-user_sends_list_info now names options = sv-answer s st _

  pub sv-user_asks_userhosts :
      (nicknames : List Bytes) → (user_asks_userhosts s st nicknames).sv ≡ s
  unfolding user_asks_userhosts
  sv-user_asks_userhosts nicknames = ground arith

  pub sv-user_asks_whois : (nickname : Bytes) → (user_asks_whois s st nickname).sv ≡ s
  unfolding user_asks_whois
  sv-user_asks_whois nickname = ground arith

  pub sv-user_asks_who : (mask : Bytes) → (user_asks_who s st mask).sv ≡ s
  unfolding user_asks_who
  sv-user_asks_who mask = ground arith

  pub sv-user_asks_lusers : (user_asks_lusers s st).sv ≡ s
  unfolding user_asks_lusers
  sv-user_asks_lusers = ground arith
