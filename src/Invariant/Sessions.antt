-- ===== src/Invariant/Sessions.antt =====
-- The session's side of the dispatch (cirque-core/src/user_state.rs): a session stays in agreement
-- with the server.
use cirque.Base.{
  Result-cases, ℕ, true, Bytes, none, some, ◌≡◌, refl, inl, inr, arith, Option-cases, ◌⊎◌,
}
use cirque.Base.Map.{get, contains_key, id_eq, channel_id_eq}
use cirque.Base.Map.Laws.{get-remove}
use cirque.UserState.{
  UserState, RegisteringState, RegisteredState, registering, registered, disconnected,
}
use cirque.Types.User.{RegisteringUser, UserId, RegisteringUser}
use cirque.ClientToServer.{Message}
use cirque.Server.State.{ServerStateInner}
use cirque.Server.Nickname.{External}
use cirque.Server.Registration.{ruser_sends_invalid_message, ruser_disconnects_suddently}
use cirque.Server.Queries.{
  user_pings, user_sends_unknown_command, user_sends_invalid_message, user_wants_motd,
  user_sends_list_info, user_asks_userhosts, user_asks_whois, user_asks_who, user_asks_lusers,
}
use cirque.Server.Nicknames.{registering_is_not_registered}
use cirque.Server.Valid.{IsValid}
use cirque.Session.{dispatch_registering, dispatch_registered, handle_message, check_timeout}
use cirque.Invariant.Agreement.{
  Agrees, Agreeing, Agreeing-same, ruser_uses_password-Agreeing, ruser_uses_nick-Agreeing,
  ruser_uses_username-Agreeing, ruser_disconnects_voluntarily-Agreeing, disconnect-gone,
}
use cirque.Server.Settings.{user_asks_channel_mode}
use cirque.Server.Topics.{user_wants_topic}
use mathlib.Core.Path.{subst}
use cirque.Server.Departure.{user_disconnects_suddently, dispose_state}
use cirque.Server.Messaging.{user_messages_target, user_notices_target}
use cirque.Timeout.{PingStatus, check_status, on_send_ping, all_good, timeout, need_to_send}
use cirque.Parser.Message.{Message as Parsed}
use cirque.ClientToServer.Registry.{try_from}
use cirque.Server.ReadOnly.{
  sv-user_messages_target, sv-user_notices_target, sv-user_asks_channel_mode, sv-user_wants_topic,
}
use cirque.Error.{MessageDecodingError}
use cirque.Invariant.Operations.{
  ruser_pings-Agreeing, send_ping_to_ruser-Agreeing, unknown-Agreeing, refused-Agreeing,
  answer-Agreeing, joins-Agreeing, names-Agreeing, leaves-Agreeing, mode-Agreeing, topic-Agreeing,
  away-Agreeing, ping-Agreeing, nick-Agreeing, quit-Agreeing,
}

module _ (x : External) (s : ServerStateInner) (v : IsValid s) where
  dispatch_registering-Agreeing :
      (st : RegisteringState) (m : Message)
      → contains_key st.user_id s.registering_users ≡ true
      → Agreeing st.user_id (dispatch_registering x s st m)
  unfolding dispatch_registering
  dispatch_registering-Agreeing st (Message.pass p) h = ruser_uses_password-Agreeing s v st h p
  dispatch_registering-Agreeing st (Message.nick n) h = ruser_uses_nick-Agreeing s v st h x n
  dispatch_registering-Agreeing st (Message.user u r) h = ruser_uses_username-Agreeing s v st h u r
  dispatch_registering-Agreeing st (Message.quit r) h =
      ruser_disconnects_voluntarily-Agreeing s v st h r
  dispatch_registering-Agreeing st (Message.ping t) h = ruser_pings-Agreeing s st h t
  dispatch_registering-Agreeing st (Message.unknown c) h = unknown-Agreeing s st h c
  dispatch_registering-Agreeing st (Message.priv_msg t c) h = refused-Agreeing s st h
  dispatch_registering-Agreeing st (Message.pong t) h = (refl, h)
  dispatch_registering-Agreeing st _ h = (refl, h)

  dispatch_registered-Agreeing :
      (now : ℕ) (st : RegisteredState) (m : Message)
      → contains_key st.user_id s.users ≡ true
      → Agreeing st.user_id (dispatch_registered x now s st m)
  unfolding dispatch_registered user_asks_channel_mode user_pings user_messages_target
      user_notices_target user_wants_topic user_wants_motd user_asks_userhosts user_asks_whois
      user_asks_who user_asks_lusers user_sends_unknown_command user_sends_list_info
  dispatch_registered-Agreeing now st (Message.join cs) h = joins-Agreeing s st h cs
  dispatch_registered-Agreeing now st (Message.names cs) h = names-Agreeing s st h cs
  dispatch_registered-Agreeing now st (Message.nick n) h = nick-Agreeing s st h x v n
  dispatch_registered-Agreeing now st (Message.part cs r) h = leaves-Agreeing s st h cs r
  dispatch_registered-Agreeing now st (Message.ask_mode_channel c) h =
      Agreeing-same st.user_id s (registered st) (user_asks_channel_mode s st c) (refl, h)
        (sv-user_asks_channel_mode s st c) refl
  dispatch_registered-Agreeing now st (Message.change_mode_channel c m p) h =
      mode-Agreeing s st h c m p
  dispatch_registered-Agreeing now st (Message.ping t) h = answer-Agreeing s st h _
  dispatch_registered-Agreeing now st (Message.pong t) h = (refl, h)
  dispatch_registered-Agreeing now st (Message.quit r) h = quit-Agreeing s st h v r
  dispatch_registered-Agreeing now st (Message.priv_msg t c) h =
      Agreeing-same st.user_id s (registered st) (user_messages_target s st t c) (refl, h)
        (sv-user_messages_target s st t c) refl
  dispatch_registered-Agreeing now st (Message.notice t c) h =
      Agreeing-same st.user_id s (registered st) (user_notices_target s st t c) (refl, h)
        (sv-user_notices_target s st t c) refl
  dispatch_registered-Agreeing now st (Message.set_topic t c) h = topic-Agreeing s st h now t c
  dispatch_registered-Agreeing now st (Message.get_topic t) h =
      Agreeing-same st.user_id s (registered st) (user_wants_topic s st t) (refl, h)
        (sv-user_wants_topic s st t) refl
  dispatch_registered-Agreeing now st Message.motd h = answer-Agreeing s st h _
  dispatch_registered-Agreeing now st (Message.away m) h = away-Agreeing s st h m
  dispatch_registered-Agreeing now st (Message.userhost ns) h = answer-Agreeing s st h _
  dispatch_registered-Agreeing now st (Message.whois n) h = answer-Agreeing s st h _
  dispatch_registered-Agreeing now st (Message.who m) h = answer-Agreeing s st h _
  dispatch_registered-Agreeing now st Message.lusers h = answer-Agreeing s st h _
  dispatch_registered-Agreeing now st (Message.unknown c) h = answer-Agreeing s st h _
  dispatch_registered-Agreeing now st (Message.list cs os) h = answer-Agreeing s st h _
  dispatch_registered-Agreeing now st (Message.user u r) h = (refl, h)
  dispatch_registered-Agreeing now st (Message.pass p) h = (refl, h)

  invalid_registering-Agreeing :
      (st : RegisteringState) (e : MessageDecodingError)
      → contains_key st.user_id s.registering_users ≡ true
      → Agreeing st.user_id (ruser_sends_invalid_message s st e)
  unfolding ruser_sends_invalid_message
  invalid_registering-Agreeing st e h = ground arith

  -- Whatever a client sends, its session and the server agree afterwards if they agreed before.
  pub handle_message-Agrees :
      (i : UserId) (now : ℕ) (us : UserState) (m : Parsed)
      → Agrees i s us
      → Agrees i (handle_message x now s us m).sv (handle_message x now s us m).user_state
  unfolding handle_message user_sends_invalid_message
  handle_message-Agrees i now (registering st) m (same, h) = elim (Result-cases (try_from m)) [
    | inl (c, e) ↦
        subst (λ k. Agreeing k (handle_message x now s (registering st) m)) same
          (rw (e, handle_message) (dispatch_registering-Agreeing st c h))
    | inr (c, e) ↦
        subst (λ k. Agreeing k (handle_message x now s (registering st) m)) same
          (rw (e, handle_message) (invalid_registering-Agreeing st c h))
  ]
  handle_message-Agrees i now (registered st) m (same, h) = elim (Result-cases (try_from m)) [
    | inl (c, e) ↦
        subst (λ k. Agreeing k (handle_message x now s (registered st) m)) same
          (rw (e, handle_message) (dispatch_registered-Agreeing now st c h))
    | inr (c, e) ↦
        subst (λ k. Agreeing k (handle_message x now s (registered st) m)) same
          (rw (e, handle_message) (answer-Agreeing s st h _))
  ]
  handle_message-Agrees i now disconnected m h = h

  pub check_timeout-Agrees :
      (show : ℕ → Bytes) (i : UserId) (us : UserState) (now : ℕ) (token : Bytes)
      → Agrees i s us
      → Agreeing i (check_timeout show s us now token)
  unfolding check_timeout
  check_timeout-Agrees show i (registering st) now token (same, h) =
      subst (λ k. Agreeing k (check_timeout show s (registering st) now token)) same
        (at (check_status st.ping_state now) refl)
    where
      at :
          (status : PingStatus)
          → check_status st.ping_state now ≡ status
          → Agreeing st.user_id (check_timeout show s (registering st) now token)
      at all_good e = rw (e, check_timeout) (refl, h)
      at (timeout d) e =
          rw (e, check_timeout) (ruser_disconnects_voluntarily-Agreeing s v st h (some (show d)))
      at need_to_send e =
          rw (e, check_timeout)
            (send_ping_to_ruser-Agreeing s
              (record st { ping_state = on_send_ping st.ping_state token now }) h token)
  check_timeout-Agrees show i (registered st) now token (same, h) =
      subst (λ k. Agreeing k (check_timeout show s (registered st) now token)) same
        (at (check_status st.ping_state now) refl)
    where
      at :
          (status : PingStatus)
          → check_status st.ping_state now ≡ status
          → Agreeing st.user_id (check_timeout show s (registered st) now token)
      at all_good e = rw (e, check_timeout) (refl, h)
      at (timeout d) e = rw (e, check_timeout) (quit-Agreeing s st h v (some (show d)))
      at need_to_send e =
          rw (e, check_timeout)
            (ping-Agreeing s (record st { ping_state = on_send_ping st.ping_state token now }) h
              token)
  check_timeout-Agrees show i disconnected now token h = h

  pub dispose_state-gone :
      (i : UserId) (us : UserState) → Agrees i s us → Agrees i (dispose_state s us).0 disconnected
  unfolding dispose_state ruser_disconnects_suddently user_disconnects_suddently
  dispose_state-gone i (registering st) (same, h) =
      subst (λ k. Agrees k (dispose_state s (registering st)).0 disconnected) same
        (gone (Option-cases (get st.user_id s.registering_users)))
    where
      gone :
          (get st.user_id s.registering_users ≡ none)
            ⊎ ((u : RegisteringUser) × (get st.user_id s.registering_users ≡ some u))
          → Agrees st.user_id (dispose_state s (registering st)).0 disconnected
      gone (inl e) = absurd (ground arith)
      gone (inr (u, e)) = ground (
        arith,
        get-remove st.user_id st.user_id s.registering_users,
        registering_is_not_registered s v st.user_id u,
      )
  dispose_state-gone i (registered st) (same, h) =
      subst (λ k. Agrees k (dispose_state s (registered st)).0 disconnected) same
        (disconnect-gone s v st h _ _)
  dispose_state-gone i disconnected h = h
