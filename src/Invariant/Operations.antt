-- ===== src/Invariant/Operations.antt =====
-- Each operation of a session leaves the session in agreement with the server.
use cirque.Base.{ℕ, true, Bytes, Option, List, ◌≡◌, refl, inl, inr, arith, Option-cases}
use cirque.Base.Map.{get, contains_key, id_eq, channel_id_eq}
use cirque.Base.Map.Laws.{get-modify}
use cirque.UserState.{RegisteringState, RegisteredState}
use cirque.Types.User.{RegisteredUser, change_nickname}
use cirque.Server.State.{ServerStateInner, Outbox}
use cirque.Server.Nickname.{External}
use cirque.Server.Registration.{
  ruser_pings, ruser_sends_unknown_command, ruser_sends_command_but_is_not_registered,
  send_ping_to_ruser,
}
use cirque.Server.Queries.{answer, send_ping_to_user}
use cirque.Server.Valid.{IsValid}
use cirque.Invariant.Agreement.{Agreeing, Agreeing-registered, disconnect-gone}
use cirque.Server.Membership.{user_joins_channels, user_leaves_channels, user_names_channels}
use cirque.Server.Valid.Departure.{user_changes_nick_cases}
use cirque.Server.Valid.Membership.{
  user_joins_channel_cases, user_leaves_channel_cases, user_joins_channels_inv,
  user_leaves_channels_inv, user_names_channels_inv, report-fst,
}
use cirque.Server.Settings.{user_changes_channel_mode, user_changes_channel_mode_inner}
use cirque.Server.Topics.{user_sets_topic, user_sets_topic_inner}
use cirque.Server.Departure.{user_disconnects_voluntarily, user_changes_nick}
use cirque.Server.Messaging.{set_away, user_indicates_away}
use cirque.Server.Valid.Settings.{user_changes_channel_mode_cases, user_sets_topic_cases}
use cirque.Server.Renaming.{user_changes_nick-registered}

module _ (s : ServerStateInner) (st : RegisteringState)
    (there : contains_key st.user_id s.registering_users ≡ true) where
  pub ruser_pings-Agreeing : (token : Bytes) → Agreeing st.user_id (ruser_pings s st token)
  unfolding ruser_pings
  ruser_pings-Agreeing token = ground arith

  pub send_ping_to_ruser-Agreeing :
      (token : Bytes) → Agreeing st.user_id (send_ping_to_ruser s st token)
  unfolding send_ping_to_ruser
  send_ping_to_ruser-Agreeing token = ground arith

  pub unknown-Agreeing : (c : Bytes) → Agreeing st.user_id (ruser_sends_unknown_command s st c)
  unfolding ruser_sends_unknown_command
  unknown-Agreeing c = ground arith

  pub refused-Agreeing : Agreeing st.user_id (ruser_sends_command_but_is_not_registered s st)
  unfolding ruser_sends_command_but_is_not_registered
  refused-Agreeing = ground arith

module _ (s : ServerStateInner) (st : RegisteredState)
    (there : contains_key st.user_id s.users ≡ true) where
  pub answer-Agreeing : (f : RegisteredUser → Outbox) → Agreeing st.user_id (answer s st f)
  answer-Agreeing f = ground arith

  pub joins-Agreeing : (cs : List Bytes) → Agreeing st.user_id (user_joins_channels s st cs)
  unfolding user_joins_channels
  joins-Agreeing cs = (
    refl,
    user_joins_channels_inv (λ t. contains_key st.user_id t.users ≡ true) st
        (λ t c h.
          user_joins_channel_cases (λ r. contains_key st.user_id r.users ≡ true) t st.user_id c h
            (λ _ _. h) (λ _ _. h))
        s cs there,
  )

  pub names-Agreeing : (cs : List Bytes) → Agreeing st.user_id (user_names_channels s st cs)
  unfolding user_names_channels
  names-Agreeing cs =
      (refl, user_names_channels_inv (λ t. contains_key st.user_id t.users ≡ true) st s cs there)

  pub leaves-Agreeing :
      (cs : List Bytes) (r : Option Bytes) → Agreeing st.user_id (user_leaves_channels s st cs r)
  unfolding user_leaves_channels
  leaves-Agreeing cs r = (
    refl,
    user_leaves_channels_inv (λ t. contains_key st.user_id t.users ≡ true) st r
        (λ t c h.
          user_leaves_channel_cases (λ q. contains_key st.user_id q.users ≡ true) t st.user_id c r h
            (λ _ _. h))
        s cs there,
  )

  pub mode-Agreeing :
      (c m : Bytes) (p : Option Bytes) → Agreeing st.user_id (user_changes_channel_mode s st c m p)
  unfolding user_changes_channel_mode
  mode-Agreeing c m p = (
    refl,
    rw (report-fst st.user_id (user_changes_channel_mode_inner s st.user_id c m p)) (
        user_changes_channel_mode_cases (λ t. contains_key st.user_id t.users ≡ true) s st.user_id c
          m p there (λ _ _ _ _ _ _ _. there) (λ _ _ _ _ _ _ _ _ _ _. there)),
  )

  pub topic-Agreeing : (now : ℕ) (c t : Bytes) → Agreeing st.user_id (user_sets_topic now s st c t)
  unfolding user_sets_topic
  topic-Agreeing now c t = (
    refl,
    rw (report-fst st.user_id (user_sets_topic_inner now s st.user_id c t)) (
        user_sets_topic_cases (λ t. contains_key st.user_id t.users ≡ true) s now st.user_id c t
          there (λ _ _ _ _ _ _. there)),
  )

  pub away-Agreeing : (m : Option Bytes) → Agreeing st.user_id (user_indicates_away s st m)
  unfolding user_indicates_away
  away-Agreeing m = ground (arith, get-modify st.user_id st.user_id (set_away m) s.users)

  pub ping-Agreeing : (token : Bytes) → Agreeing st.user_id (send_ping_to_user s st token)
  unfolding send_ping_to_user
  ping-Agreeing token = ground arith

  pub nick-Agreeing :
      (x : External) → IsValid s → (n : Bytes) → Agreeing st.user_id (user_changes_nick x s st n)
  nick-Agreeing x v n = elim (Option-cases (get st.user_id s.users)) [
    | inl e ↦ absurd (ground arith)
    | inr (u, e) ↦
        Agreeing-registered st (user_changes_nick x s st n)
          (user_changes_nick_cases (λ t. contains_key st.user_id t.users ≡ true) x s st n there
            (λ _ _. ground (arith, get-modify st.user_id st.user_id (change_nickname n) s.users)))
          (user_changes_nick-registered x s v st u n e)
  ]

  pub quit-Agreeing :
      IsValid s → (r : Option Bytes) → Agreeing st.user_id (user_disconnects_voluntarily s st r)
  unfolding user_disconnects_voluntarily
  quit-Agreeing v r = disconnect-gone s v st there _ _
