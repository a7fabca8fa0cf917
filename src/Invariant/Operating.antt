-- ===== src/Invariant/Operating.antt =====
-- The operations of cirque-core/src/server_state.rs and the invariant of the server.
use mathlib.Core.Path.{subst, sym}
use cirque.Base.{ℕ, Bytes, Option, none, List, ◌≡◌, refl}
use cirque.Base.Map.{get, id_eq, channel_id_eq}
use cirque.UserState.{
  RegisteringState, RegisteredState, UserState, registering, registered, disconnected,
}
use cirque.Server.State.{ServerStateInner}
use cirque.Server.Nickname.{External}
use cirque.Server.Nicknames.{HasNicknames}
use cirque.Server.NicknameSteps.{
  change_nickname-HasNicknames, set_nickname-HasNicknames, modify_user-HasNicknames,
  connect-HasNicknames,
}
use cirque.Server.Registration.{
  new_registering_user, ruser_uses_password, ruser_uses_nick, ruser_uses_username,
  ruser_disconnects_voluntarily, ruser_disconnects_suddently, set_password, set_nickname, set_names,
}
use cirque.Server.Membership.{user_joins_channels, user_leaves_channels, user_names_channels}
use cirque.Server.Departure.{
  user_disconnects_voluntarily, user_disconnects_suddently, user_changes_nick, dispose_state,
}
use cirque.Server.Messaging.{user_indicates_away, set_away}
use cirque.Server.Settings.{user_changes_channel_mode}
use cirque.Server.Topics.{user_sets_topic}
use cirque.Server.Valid.{modify_ruser-IsValid}
use cirque.Server.Valid.Membership.{
  user_joins_channels_inv, user_leaves_channels_inv, user_names_channels_inv, report-fst,
}
use cirque.Server.Valid.Departure.{user_changes_nick_cases, user_changes_nick-IsValid}
use cirque.Server.Valid.Registration.{
  new_registering_user-IsValid, ruser_uses_password_cases, ruser_uses_nick_cases,
  ruser_uses_username_cases, ruser_disconnects_voluntarily_cases, ruser_disconnects_suddently_cases,
}
use cirque.Server.Valid.Settings.{user_indicates_away_cases, user_indicates_away-IsValid}
use cirque.Invariant.Kept.{
  Inv, join-Inv, part-Inv, disconnect-Inv, without_ruser-Inv, check_registration-Inv, updated-Inv,
  channel_mode-Inv, topic-Inv,
}

module _ (x : External) where
  module _ (s : ServerStateInner) (v : Inv x s) where
    -- A new connection under a fresh id.
    pub new_registering_user-Inv :
        (i mailbox now : ℕ) → get i s.users ≡ none → Inv x (new_registering_user s i mailbox now).sv
    unfolding new_registering_user
    new_registering_user-Inv i mailbox now fresh = record {
      valid = new_registering_user-IsValid s v.valid i mailbox now fresh;
      nicknames = connect-HasNicknames x s v.valid v.nicknames i mailbox fresh;
    }

    pub ruser_uses_password-Inv :
        (st : RegisteringState) (p : Bytes) → Inv x (ruser_uses_password s st p).sv
    ruser_uses_password-Inv st p = ruser_uses_password_cases (Inv x) s st p v (
        check_registration-Inv x _
          (updated-Inv x s v st.user_id (set_password p) (λ _. refl) (λ _. refl)) st)

    pub ruser_uses_username-Inv :
        (st : RegisteringState) (username realname : Bytes)
        → Inv x (ruser_uses_username s st username realname).sv
    ruser_uses_username-Inv st username realname =
        ruser_uses_username_cases (Inv x) s st username realname v (
          check_registration-Inv x _
            (updated-Inv x s v st.user_id (set_names username realname) (λ _. refl) (λ _. refl)) st)

    pub ruser_uses_nick-Inv :
        (st : RegisteringState) (nick : Bytes) → Inv x (ruser_uses_nick x s st nick).sv
    ruser_uses_nick-Inv st nick = ruser_uses_nick_cases (Inv x) s st x nick v (λ r checked e.
        check_registration-Inv x _
          (record {
            valid = modify_ruser-IsValid s v.valid st.user_id (set_nickname nick) (λ _. refl);
            nicknames =
                set_nickname-HasNicknames x s v.valid v.nicknames st.user_id nick r checked e;
          })
          st)

    pub ruser_disconnects_voluntarily-Inv :
        (st : RegisteringState) (r : Option Bytes) → Inv x (ruser_disconnects_voluntarily s st r).sv
    ruser_disconnects_voluntarily-Inv st r =
        ruser_disconnects_voluntarily_cases (Inv x) s st r v (without_ruser-Inv x s v st.user_id)

    pub ruser_disconnects_suddently-Inv :
        (st : RegisteringState) → Inv x (ruser_disconnects_suddently s st).sv
    ruser_disconnects_suddently-Inv st =
        ruser_disconnects_suddently_cases (Inv x) s st v (without_ruser-Inv x s v st.user_id)

  module _ (s : ServerStateInner) (v : Inv x s) (st : RegisteredState) where
    pub user_joins_channels-Inv : (cs : List Bytes) → Inv x (user_joins_channels s st cs).sv
    user_joins_channels-Inv cs =
        user_joins_channels_inv (Inv x) st (λ s' c v'. join-Inv x s' v' st.user_id c) s cs v

    pub user_names_channels-Inv : (cs : List Bytes) → Inv x (user_names_channels s st cs).sv
    user_names_channels-Inv cs = user_names_channels_inv (Inv x) st s cs v

    pub user_leaves_channels-Inv :
        (cs : List Bytes) (r : Option Bytes) → Inv x (user_leaves_channels s st cs r).sv
    user_leaves_channels-Inv cs r =
        user_leaves_channels_inv (Inv x) st r (λ s' c v'. part-Inv x s' v' st.user_id c r) s cs v

    pub user_disconnects_voluntarily-Inv :
        (r : Option Bytes) → Inv x (user_disconnects_voluntarily s st r).sv
    unfolding user_disconnects_voluntarily
    user_disconnects_voluntarily-Inv r = disconnect-Inv x s v st.user_id _ _

    pub user_disconnects_suddently-Inv : Inv x (user_disconnects_suddently s st).sv
    unfolding user_disconnects_suddently
    user_disconnects_suddently-Inv = disconnect-Inv x s v st.user_id _ _

    pub user_changes_nick-Inv : (nick : Bytes) → Inv x (user_changes_nick x s st nick).sv
    user_changes_nick-Inv nick = record {
      valid = user_changes_nick-IsValid s v.valid x st nick;
      nicknames =
          user_changes_nick_cases (HasNicknames x) x s st nick v.nicknames
            (change_nickname-HasNicknames x s v.valid v.nicknames st.user_id nick);
    }

    pub user_indicates_away-Inv : (m : Option Bytes) → Inv x (user_indicates_away s st m).sv
    user_indicates_away-Inv m = record {
      valid = user_indicates_away-IsValid s v.valid st m;
      nicknames =
          user_indicates_away_cases (HasNicknames x) s st m v.nicknames
            (modify_user-HasNicknames x s v.valid v.nicknames st.user_id (set_away m) (λ _. refl));
    }

    pub user_changes_channel_mode-Inv :
        (c modechar : Bytes) (param : Option Bytes)
        → Inv x (user_changes_channel_mode s st c modechar param).sv
    unfolding user_changes_channel_mode
    user_changes_channel_mode-Inv c modechar param =
        subst (Inv x) (sym (report-fst st.user_id _))
          (channel_mode-Inv x s v st.user_id c modechar param)

    pub user_sets_topic-Inv :
        (now : ℕ) (c content : Bytes) → Inv x (user_sets_topic now s st c content).sv
    unfolding user_sets_topic
    user_sets_topic-Inv now c content =
        subst (Inv x) (sym (report-fst st.user_id _)) (topic-Inv x s v now st.user_id c content)

  pub dispose_state-Inv :
      (s : ServerStateInner) → Inv x s → (st : UserState) → Inv x (dispose_state s st).0
  unfolding dispose_state
  dispose_state-Inv s v (registering st) = ruser_disconnects_suddently-Inv s v st
  dispose_state-Inv s v (registered st) = user_disconnects_suddently-Inv s v st
  dispose_state-Inv s v disconnected = v
