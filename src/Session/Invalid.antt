-- ===== src/Session/Invalid.antt =====
-- What a message that cannot be decoded does (cirque-core/src/user_state.rs).
use cirque.Base.{ℕ, Option, none, some, [], ◌≡◌, ◌⊎◌, refl, inl, inr, arith, err, Option-cases}
use cirque.Base.Map.{get, id_eq}
use cirque.Types.User.{UserId, MailboxHandle, RegisteredUser, RegisteringUser, maybe_nickname}
use cirque.Error.{MessageDecodingError, ServerStateError, from_decoding_error_with_client}
use cirque.ServerToClient.{Message}
use cirque.Parser.Message.{Message as Parsed}
use cirque.ClientToServer.Registry.{try_from}
use cirque.UserState.{
  UserState, RegisteringState, RegisteredState, registering, registered, disconnected,
}
use cirque.Server.State.{ServerStateInner, Reply, envelope, send_error}
use cirque.Server.Nickname.{External}
use cirque.Server.Registration.{ruser_sends_invalid_message}
use cirque.Server.Queries.{user_sends_invalid_message}
use cirque.Server.Nicknames.{registering_is_not_registered}
use cirque.Server.Valid.{IsValid}
use cirque.Session.{handle_message}
use cirque.Invariant.Agreement.{Agrees}

-- The mailbox of the client that a session is for.
abbrev pub own_mailbox : ServerStateInner → UserState → Option MailboxHandle
own_mailbox s (registering st) = elim (get st.user_id s.registering_users) [
  | none ↦ none
  | some user ↦ some user.mailbox
]
own_mailbox s (registered st) = elim (get st.user_id s.users) [
  | none ↦ none
  | some user ↦ some user.mailbox
]
own_mailbox s disconnected = none

-- Nothing has changed, and the client alone is told of an error, if anybody is.
pub record Refused (s : ServerStateInner) (us : UserState) (r : Reply) : Type 0 where
  pub sv : r.sv ≡ s
  pub user_state : r.user_state ≡ us
  pub sent :
      (r.sent ≡ [])
      ⊎ ((handle : MailboxHandle) × (e : ServerStateError) × (own_mailbox s us ≡ some handle)
          × (r.sent ≡ envelope handle (Message.err e)))

module _ (s : ServerStateInner) (e : MessageDecodingError) where
  invalid-registered :
      (st : RegisteredState) (user : RegisteredUser)
      → get st.user_id s.users ≡ some user
      → Refused s (registered st) (user_sends_invalid_message s st e)
  unfolding user_sends_invalid_message send_error
  invalid-registered st user h =
      elim (Option-cases (from_decoding_error_with_client e user.nickname)) [
        | inl k ↦ record { sv = ground arith; user_state = ground arith; sent = inl (ground arith) }
        | inr (d, k) ↦ record {
          sv = ground arith;
          user_state = ground arith;
          sent = inr (user.mailbox, d, ground arith, ground arith);
        }
      ]

  invalid-registering :
      IsValid s
      → (st : RegisteringState) (user : RegisteringUser)
      → get st.user_id s.registering_users ≡ some user
      → Refused s (registering st) (ruser_sends_invalid_message s st e)
  unfolding ruser_sends_invalid_message send_error
  invalid-registering v st user h =
      let free = registering_is_not_registered s v st.user_id user h in
      elim (Option-cases (from_decoding_error_with_client e (maybe_nickname user))) [
        | inl k ↦ record { sv = ground arith; user_state = ground arith; sent = inl (ground arith) }
        | inr (d, k) ↦ record {
          sv = ground arith;
          user_state = ground arith;
          sent = inr (user.mailbox, d, ground arith, ground arith);
        }
      ]

-- A message that cannot be decoded changes nothing, whoever sends it: the server and the session stay
-- as they are, nobody else is sent anything, and the client is sent one error at most. The server is
-- in a valid state, and the session agrees with it.
pub handle_message-Refused :
    (x : External) (now : ℕ) (s : ServerStateInner)
    → IsValid s
    → (i : UserId) (us : UserState) → Agrees i s us
    → (m : Parsed) (e : MessageDecodingError) → try_from m ≡ err e
    → Refused s us (handle_message x now s us m)
unfolding handle_message
handle_message-Refused x now s v i (registering st) (same, there) m e h =
    elim (Option-cases (get st.user_id s.registering_users)) [
      | inl k ↦ absurd (ground arith)
      | inr (user, k) ↦ rw (h, handle_message) (invalid-registering s e v st user k)
    ]
handle_message-Refused x now s v i (registered st) (same, there) m e h =
    elim (Option-cases (get st.user_id s.users)) [
      | inl k ↦ absurd (ground arith)
      | inr (user, k) ↦ rw (h, handle_message) (invalid-registered s e st user k)
    ]
handle_message-Refused x now s v i disconnected a m e h = record {
  sv = refl;
  user_state = refl;
  sent = inl refl;
}
