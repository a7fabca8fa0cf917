-- ===== src/Invariant/Mailboxes/Keeping.antt =====
-- The mailboxes of the clients under the operations of cirque-core/src/server_state.rs.
use mathlib.Core.Path.{subst, sym}
use cirque.Base.{ℕ, Bytes, Option, ◌≡◌, refl}
use cirque.Base.Map.{id_eq}
use cirque.Types.User.{RegisteringUser, change_nickname}
use cirque.UserState.{
  RegisteringState, RegisteredState, UserState, registering, registered, disconnected,
}
use cirque.Server.State.{ServerStateInner}
use cirque.Server.Nickname.{External}
use cirque.Server.Registration.{
  check_ruser_registration_state, set_password, set_nickname, set_names,
}
use cirque.Server.Departure.{
  dispose_state, user_disconnects_voluntarily, user_disconnects_suddently,
}
use cirque.Server.Messaging.{set_away}
use cirque.Server.Settings.{user_changes_channel_mode}
use cirque.Server.Topics.{user_sets_topic}
use cirque.Server.Valid.{IsValid, modify_ruser-IsValid}
use cirque.Server.Valid.Membership.{
  user_joins_channel_cases, user_leaves_channel_cases, user_joins_channels_inv,
  user_leaves_channels_inv, user_names_channels_inv, report-fst,
}
use cirque.Server.Valid.Departure.{disconnect_cases, user_changes_nick_cases}
use cirque.Server.Valid.Registration.{
  ruser_uses_password_cases, ruser_uses_nick_cases, ruser_uses_username_cases,
  ruser_disconnects_voluntarily_cases, ruser_disconnects_suddently_cases, updated,
}
use cirque.Server.Valid.Settings.{
  user_changes_channel_mode_cases, user_sets_topic_cases, user_indicates_away_cases,
}
use cirque.Invariant.Dispatch.{Keeps}
use cirque.Invariant.Mailboxes.{
  OwnMailboxes, same-OwnMailboxes, modify_user-OwnMailboxes, updated-OwnMailboxes,
  without_ruser-OwnMailboxes, without_user-OwnMailboxes, check_registration-OwnMailboxes,
}

module _ (x : External) (s : ServerStateInner) (v : IsValid s) (h : OwnMailboxes s) where
  -- A write to the registering user, and the check that follows.
  updated_then-OwnMailboxes :
      (st : RegisteringState) (f : RegisteringUser → RegisteringUser)
      → ((u : RegisteringUser) → (f u).mailbox ≡ u.mailbox)
      → ((u : RegisteringUser) → (f u).user_id ≡ u.user_id)
      → OwnMailboxes (check_ruser_registration_state (updated st.user_id f s) st).sv
  updated_then-OwnMailboxes st f same keyed =
      check_registration-OwnMailboxes _ (updated-OwnMailboxes s h st.user_id f same)
        (modify_ruser-IsValid s v st.user_id f keyed) st

  quit-OwnMailboxes :
      (st : RegisteredState) (r : Option Bytes)
      → OwnMailboxes (user_disconnects_voluntarily s st r).sv
  unfolding user_disconnects_voluntarily
  quit-OwnMailboxes st r =
      disconnect_cases OwnMailboxes s v st.user_id _ _ h (without_user-OwnMailboxes s h st.user_id)

  mode-OwnMailboxes :
      (st : RegisteredState) (c m : Bytes) (p : Option Bytes)
      → OwnMailboxes (user_changes_channel_mode s st c m p).sv
  unfolding user_changes_channel_mode
  mode-OwnMailboxes st c m p = subst OwnMailboxes (sym (report-fst st.user_id _)) (
      user_changes_channel_mode_cases OwnMailboxes s st.user_id c m p h
        (λ _ _ _ _ _ _ _. same-OwnMailboxes s _ refl refl h)
        (λ _ _ _ _ _ _ _ _ _ _. same-OwnMailboxes s _ refl refl h))

  topic-OwnMailboxes :
      (st : RegisteredState) (now : ℕ) (c t : Bytes)
      → OwnMailboxes (user_sets_topic now s st c t).sv
  unfolding user_sets_topic
  topic-OwnMailboxes st now c t = subst OwnMailboxes (sym (report-fst st.user_id _)) (
      user_sets_topic_cases OwnMailboxes s now st.user_id c t h
        (λ _ _ _ _ _ _. same-OwnMailboxes s _ refl refl h))

  pub OwnMailboxes-Keeps : (us : UserState) → Keeps OwnMailboxes x s us
  unfolding change_nickname
  OwnMailboxes-Keeps (registering st) = record {
    same = h;
    pass = λ p.
        ruser_uses_password_cases OwnMailboxes s st p h
          (updated_then-OwnMailboxes st (set_password p) (λ _. refl) (λ _. refl));
    nick = λ n.
        ruser_uses_nick_cases OwnMailboxes s st x n h
          (λ r checked e. updated_then-OwnMailboxes st (set_nickname n) (λ _. refl) (λ _. refl));
    user = λ u r.
        ruser_uses_username_cases OwnMailboxes s st u r h
          (updated_then-OwnMailboxes st (set_names u r) (λ _. refl) (λ _. refl));
    quit = λ r.
        ruser_disconnects_voluntarily_cases OwnMailboxes s st r h
          (without_ruser-OwnMailboxes s h st.user_id);
  }
  OwnMailboxes-Keeps (registered st) = record {
    same = h;
    join = λ cs.
        user_joins_channels_inv OwnMailboxes st
          (λ s' c h'.
            user_joins_channel_cases OwnMailboxes s' st.user_id c h'
              (λ _ _. same-OwnMailboxes s' _ refl refl h')
              (λ _ _. same-OwnMailboxes s' _ refl refl h'))
          s cs h;
    part = λ cs r.
        user_leaves_channels_inv OwnMailboxes st r
          (λ s' c h'.
            user_leaves_channel_cases OwnMailboxes s' st.user_id c r h'
              (λ ch _. same-OwnMailboxes s' _ refl refl h'))
          s cs h;
    names = λ cs. user_names_channels_inv OwnMailboxes st s cs h;
    nick = λ n.
        user_changes_nick_cases OwnMailboxes x s st n h
          (λ _ _. modify_user-OwnMailboxes s h st.user_id (change_nickname n) (λ _. refl));
    quit = quit-OwnMailboxes st;
    away = λ m.
        user_indicates_away_cases OwnMailboxes s st m h
          (modify_user-OwnMailboxes s h st.user_id (set_away m) (λ _. refl));
    mode = mode-OwnMailboxes st;
    topic = topic-OwnMailboxes st;
  }
  OwnMailboxes-Keeps disconnected = h

  pub dispose_state-OwnMailboxes : (us : UserState) → OwnMailboxes (dispose_state s us).0
  unfolding dispose_state user_disconnects_suddently
  dispose_state-OwnMailboxes (registering st) =
      ruser_disconnects_suddently_cases OwnMailboxes s st h
        (without_ruser-OwnMailboxes s h st.user_id)
  dispose_state-OwnMailboxes (registered st) =
      disconnect_cases OwnMailboxes s v st.user_id _ _ h (without_user-OwnMailboxes s h st.user_id)
  dispose_state-OwnMailboxes disconnected = h
