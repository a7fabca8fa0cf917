-- ===== src/Server/Notices.antt =====
-- NOTICE to a channel (cirque-core/src/server_state.rs).
use cirque.Base.{
  Bytes, some, [], ◌≡◌, ◌⊎◌, inl, inr, ok, err, Result-cases, Bool-cases, is_empty, arith,
}
use cirque.Base.Map.{get, get_key_value, id_eq, channel_id_eq}
use cirque.Types.User.{RegisteredUser}
use cirque.Types.Channel.{Channel, ensure_user_can_send_message}
use cirque.Error.{ServerStateError, no_text_to_send}
use cirque.UserState.{RegisteredState}
use cirque.Server.State.{ServerStateInner, report, send_error}
use cirque.Server.Nickname.{lookup_target}
use cirque.Server.Messaging.{
  user_messages_target, user_notices_target, user_messages_target_inner, user_notices_target_inner,
  message_target, notice_target,
}

-- A NOTICE to a channel does exactly what a PRIVMSG of the same text does, if that is let through. If
-- it is refused (no text, or the author may not write), the NOTICE sends nothing and the PRIVMSG only
-- the error to its author.
pub user_notices_target-channel :
    (s : ServerStateInner) (st : RegisteredState) (user : RegisteredUser) (c name content : Bytes)
    (ch : Channel)
    → get st.user_id s.users ≡ some user
    → get_key_value c s.channels ≡ some (name, ch)
    → ((user_messages_target_inner s st.user_id c content).result ≡ ok tt)
        × (user_notices_target s st c content ≡ user_messages_target s st c content)
      ⊎ ((e : ServerStateError) × ((user_messages_target_inner s st.user_id c content).result
            ≡ err e)
          × ((user_notices_target s st c content).sent ≡ [])
          × ((user_messages_target s st c content).sent ≡ send_error s st.user_id e))
unfolding user_notices_target_inner user_messages_target_inner message_target notice_target
    lookup_target user_messages_target user_notices_target report
user_notices_target-channel s st user c name content ch h e = elim (Bool-cases (is_empty content)) [
  | inl empty ↦ inr (no_text_to_send user.nickname, ground arith, ground arith, ground arith)
  | inr full ↦ elim (Result-cases (ensure_user_can_send_message ch user c)) [
    | inl (done, k) ↦ inl (ground arith, ground arith)
    | inr (error, k) ↦ inr (error, ground arith, ground arith, ground arith)
  ]
]
