-- ===== src/Invariant/Isolation.antt =====
-- What a session can do to the clients of other sessions (cirque-core/src/user_state.rs and
-- cirque-core/src/server_state.rs): nothing but send to them.
use cirque.Base.{none, ℕ, Bytes, Option, some, List, ◌≡◌, ◌≢◌, refl, arith}
use cirque.Base.Map.{id_eq, channel_id_eq}
use cirque.Base.Map.Laws.{get-modify}
use cirque.Types.User.{UserId, RegisteringUser, change_nickname}
use cirque.UserState.{
  UserState, RegisteringState, RegisteredState, registering, registered, disconnected,
}
use cirque.Invariant.Dispatch.{Keeps, handle_message-keeps, check_timeout-keeps}
use cirque.Server.State.{ServerStateInner}
use cirque.Server.Nickname.{External}
use cirque.Server.Registration.{
  check_ruser_registration_state, set_password, set_nickname, set_names,
}
use cirque.Server.Membership.{user_joins_channels, user_leaves_channels}
use cirque.Server.Valid.{IsValid, modify_ruser-IsValid}
use cirque.Server.Valid.Departure.{disconnect_cases, user_changes_nick_cases}
use cirque.Server.Valid.Registration.{
  updated, ruser_uses_password_cases, ruser_uses_nick_cases, ruser_uses_username_cases,
  ruser_disconnects_voluntarily_cases, ruser_disconnects_suddently_cases,
}
use cirque.Server.Valid.Membership.{
  user_joins_channels_inv, user_leaves_channels_inv, user_names_channels_inv, report-fst,
}
use cirque.Server.Settings.{user_changes_channel_mode, user_changes_channel_mode_inner}
use cirque.Server.Topics.{user_sets_topic, user_sets_topic_inner}
use mathlib.Core.Path.{subst, sym, ap}
use cirque.Server.Departure.{
  disconnect, user_disconnects_voluntarily, dispose_state, user_disconnects_suddently,
}
use cirque.Server.Messaging.{set_away}
use cirque.Server.Valid.Settings.{
  user_changes_channel_mode_cases, user_sets_topic_cases, user_indicates_away_cases,
}
use cirque.Invariant.Untouched.{
  Untouched, Untouched-refl, Untouched-trans, modify_user-Untouched, updated-Untouched,
  without_ruser-Untouched, without_user-Untouched, join-Untouched, part-Untouched,
  check_registration-Untouched, write_channel-Untouched,
}
use cirque.Session.{handle_message, check_timeout}
use cirque.Parser.Message.{Message as Parsed}

-- The client of a session.
abbrev pub owner : UserState → Option UserId
owner (registering st) = some st.user_id
owner (registered st) = some st.user_id
owner disconnected = none

module _ (x : External) (s : ServerStateInner) (v : IsValid s) (j : UserId) where
  Untouched-join :
      (st : RegisteredState)
      → j ≢ st.user_id
      → (cs : List Bytes) → Untouched j s (user_joins_channels s st cs).sv
  Untouched-join st ne cs =
      user_joins_channels_inv (Untouched j s) st
        (λ t c u. Untouched-trans j s t _ u (join-Untouched t st.user_id j ne c)) s cs
        (Untouched-refl j s)

  Untouched-part :
      (st : RegisteredState)
      → j ≢ st.user_id
      → (cs : List Bytes) (r : Option Bytes) → Untouched j s (user_leaves_channels s st cs r).sv
  Untouched-part st ne cs r =
      user_leaves_channels_inv (Untouched j s) st r
        (λ t c u. Untouched-trans j s t _ u (part-Untouched t st.user_id j ne c r)) s cs
        (Untouched-refl j s)

  Untouched-quit :
      (i : UserId)
      → j ≢ i
      → (reason farewell : Bytes) → Untouched j s (disconnect s i reason farewell).0
  Untouched-quit i ne reason farewell =
      disconnect_cases (Untouched j s) s v i reason farewell (Untouched-refl j s)
        (without_user-Untouched s i j ne v)

  -- What the client writes down before its registration is checked.
  Untouched-updated :
      (st : RegisteringState)
      → j ≢ st.user_id
      → (f : RegisteringUser → RegisteringUser)
      → ((u : RegisteringUser) → (f u).user_id ≡ u.user_id)
      → Untouched j s (check_ruser_registration_state (updated st.user_id f s) st).sv
  Untouched-updated st ne f same =
      Untouched-trans j s (updated st.user_id f s) _ (updated-Untouched s st.user_id j ne f) (
        check_registration-Untouched (updated st.user_id f s) st.user_id j ne st refl
          (modify_ruser-IsValid s v st.user_id f same))

  Untouched-mode :
      (i : UserId) (c m : Bytes) (p : Option Bytes)
      → Untouched j s (user_changes_channel_mode_inner s i c m p).sv
  Untouched-mode i c m p =
      user_changes_channel_mode_cases (Untouched j s) s i c m p (Untouched-refl j s)
        (λ user ch f e g h k. write_channel-Untouched s j c ch _ g refl)
        (λ user ch f n w e g h k l.
          write_channel-Untouched s j c ch _ g (ground (arith, get-modify n j (λ _. f w) ch.users)))

  Untouched-topic :
      (now : ℕ) (i : UserId) (c t : Bytes) → Untouched j s (user_sets_topic_inner now s i c t).sv
  Untouched-topic now i c t =
      user_sets_topic_cases (Untouched j s) s now i c t (Untouched-refl j s)
        (λ user ch topic e g h. write_channel-Untouched s j c ch _ g refl)

  Untouched-Keeps : (us : UserState) → owner us ≢ some j → Keeps (Untouched j s) x s us
  unfolding user_disconnects_voluntarily user_changes_channel_mode user_sets_topic
  Untouched-Keeps (registering st) owned =
      let ne : j ≢ st.user_id = (λ e. owned (ap some (sym e))) in
      record {
        same = Untouched-refl j s;
        pass = λ p.
            ruser_uses_password_cases (Untouched j s) s st p (Untouched-refl j s)
              (Untouched-updated st ne (set_password p) (λ _. refl));
        nick = λ n.
            ruser_uses_nick_cases (Untouched j s) s st x n (Untouched-refl j s)
              (λ _ _ _. Untouched-updated st ne (set_nickname n) (λ _. refl));
        user = λ u r.
            ruser_uses_username_cases (Untouched j s) s st u r (Untouched-refl j s)
              (Untouched-updated st ne (set_names u r) (λ _. refl));
        quit = λ r.
            ruser_disconnects_voluntarily_cases (Untouched j s) s st r (Untouched-refl j s)
              (without_ruser-Untouched s st.user_id j ne);
      }
  Untouched-Keeps (registered st) owned =
      let ne : j ≢ st.user_id = (λ e. owned (ap some (sym e))) in
      record {
        same = Untouched-refl j s;
        join = Untouched-join st ne;
        part = Untouched-part st ne;
        names = λ cs. user_names_channels_inv (Untouched j s) st s cs (Untouched-refl j s);
        nick = λ n.
            user_changes_nick_cases (Untouched j s) x s st n (Untouched-refl j s)
              (λ _ _. modify_user-Untouched s st.user_id j ne (change_nickname n));
        quit = λ r. Untouched-quit st.user_id ne _ _;
        away = λ m.
            user_indicates_away_cases (Untouched j s) s st m (Untouched-refl j s)
              (modify_user-Untouched s st.user_id j ne (set_away m));
        mode = λ c m p.
            subst (Untouched j s) (sym (report-fst st.user_id _)) (Untouched-mode st.user_id c m p);
        topic = λ now c t.
            subst (Untouched j s) (sym (report-fst st.user_id _))
              (Untouched-topic now st.user_id c t);
      }
  Untouched-Keeps disconnected _ = Untouched-refl j s

  Untouched-dispose : (us : UserState) → owner us ≢ some j → Untouched j s (dispose_state s us).0
  unfolding dispose_state user_disconnects_suddently
  Untouched-dispose (registering st) owned =
      ruser_disconnects_suddently_cases (Untouched j s) s st (Untouched-refl j s)
        (without_ruser-Untouched s st.user_id j (λ e. owned (ap some (sym e))))
  Untouched-dispose (registered st) owned =
      Untouched-quit st.user_id (λ e. owned (ap some (sym e))) _ _
  Untouched-dispose disconnected owned = Untouched-refl j s

  -- In a valid state, whatever one session receives, whenever its timer ticks, and when it ends, any
  -- client other than its own stays as it was: among the users, with its nickname and away message,
  -- among those that register, and as a member of each channel.
  pub session-Untouched :
      (us : UserState)
      → owner us ≢ some j
      → ((now : ℕ) (m : Parsed) → Untouched j s (handle_message x now s us m).sv)
        × ((show : ℕ → Bytes) (now : ℕ) (token : Bytes)
            → Untouched j s (check_timeout show s us now token).sv)
        × Untouched j s (dispose_state s us).0
  session-Untouched us other = (
    λ now m. handle_message-keeps (Untouched j s) x s now us m (Untouched-Keeps us other),
    λ show now token.
        check_timeout-keeps (Untouched j s) x s show us now token (Untouched-Keeps us other),
    Untouched-dispose us other,
  )
