-- ===== src/Invariant/Kept.antt =====
-- The invariant of the server, and what the changes of its state do to it.
use cirque.Base.{ℕ, Bytes, Option, ◌≡◌, refl}
use cirque.Base.Map.{id_eq, channel_id_eq}
use cirque.Types.User.{UserId, RegisteringUser}
use cirque.UserState.{RegisteringState}
use cirque.Server.State.{ServerStateInner}
use cirque.Server.Nickname.{External}
use cirque.Server.Nicknames.{HasNicknames}
use cirque.Server.NicknameSteps.{
  updated-HasNicknames, without_ruser-HasNicknames, moved-HasNicknames, same_users-HasNicknames,
  without_user-HasNicknames,
}
use cirque.Server.Registration.{check_ruser_registration_state}
use cirque.Server.Membership.{user_joins_channel, user_leaves_channel}
use cirque.Server.Departure.{disconnect}
use cirque.Server.Settings.{user_changes_channel_mode_inner}
use cirque.Server.Topics.{user_sets_topic_inner}
use cirque.Server.Valid.{IsValid, modify_ruser-IsValid, remove_ruser-IsValid}
use cirque.Server.Valid.Membership.{
  user_joins_channel_cases, user_leaves_channel_cases, user_joins_channel-IsValid,
  user_leaves_channel-IsValid,
}
use cirque.Server.Valid.Departure.{disconnect_cases, without_user-IsValid}
use cirque.Server.Valid.Registration.{
  check_ruser_registration_state_cases, check_ruser_registration_state-IsValid, updated,
  without_ruser,
}
use cirque.Server.Valid.Settings.{
  user_changes_channel_mode_cases, user_sets_topic_cases, user_changes_channel_mode-IsValid,
  user_sets_topic-IsValid,
}

module _ (x : External) where
  -- The state is valid, and its nicknames are well formed and cannot be confused.
  pub record Inv (s : ServerStateInner) : Type 0 where
    pub valid : IsValid s
    pub nicknames : HasNicknames x s

  module _ (s : ServerStateInner) (v : Inv s) where
    pub join-Inv : (i : UserId) (c : Bytes) → Inv (user_joins_channel s i c).sv
    join-Inv i c = record {
      valid = user_joins_channel-IsValid s v.valid i c;
      nicknames =
          user_joins_channel_cases (HasNicknames x) s i c v.nicknames
            (λ _ _. same_users-HasNicknames x s v.valid v.nicknames _ refl refl)
            (λ _ _. same_users-HasNicknames x s v.valid v.nicknames _ refl refl);
    }

    pub part-Inv :
        (i : UserId) (c : Bytes) (r : Option Bytes) → Inv (user_leaves_channel s i c r).sv
    part-Inv i c r = record {
      valid = user_leaves_channel-IsValid s v.valid i c r;
      nicknames =
          user_leaves_channel_cases (HasNicknames x) s i c r v.nicknames
            (λ ch _. same_users-HasNicknames x s v.valid v.nicknames _ refl refl);
    }

    pub disconnect-Inv :
        (i : UserId) (reason farewell : Bytes) → Inv (disconnect s i reason farewell).0
    disconnect-Inv i reason farewell = disconnect_cases Inv s v.valid i reason farewell v (record {
      valid = without_user-IsValid s v.valid i;
      nicknames = without_user-HasNicknames x s v.valid v.nicknames i;
    })

    pub without_ruser-Inv : (i : UserId) → Inv (without_ruser i s)
    without_ruser-Inv i = record {
      valid = remove_ruser-IsValid s v.valid i;
      nicknames = without_ruser-HasNicknames x s v.valid v.nicknames i;
    }

    pub check_registration-Inv :
        (st : RegisteringState) → Inv (check_ruser_registration_state s st).sv
    check_registration-Inv st = record {
      valid = check_ruser_registration_state-IsValid s v.valid st;
      nicknames =
          check_ruser_registration_state_cases (HasNicknames x) s st v.nicknames
            (without_ruser-HasNicknames x s v.valid v.nicknames st.user_id)
            (λ r u e f _. moved-HasNicknames x s v.valid v.nicknames st.user_id r u e f);
    }

    pub updated-Inv :
        (i : UserId) (f : RegisteringUser → RegisteringUser)
        → ((r : RegisteringUser) → (f r).user_id ≡ r.user_id)
        → ((r : RegisteringUser) → (f r).nickname ≡ r.nickname)
        → Inv (updated i f s)
    updated-Inv i f same same' = record {
      valid = modify_ruser-IsValid s v.valid i f same;
      nicknames = updated-HasNicknames x s v.valid v.nicknames i f same';
    }

    pub channel_mode-Inv :
        (i : UserId) (c modechar : Bytes) (param : Option Bytes)
        → Inv (user_changes_channel_mode_inner s i c modechar param).sv
    channel_mode-Inv i c modechar param = record {
      valid = user_changes_channel_mode-IsValid s v.valid i c modechar param;
      nicknames =
          user_changes_channel_mode_cases (HasNicknames x) s i c modechar param v.nicknames
            (λ _ _ _ _ _ _ _. same_users-HasNicknames x s v.valid v.nicknames _ refl refl)
            (λ _ _ _ _ _ _ _ _ _ _. same_users-HasNicknames x s v.valid v.nicknames _ refl refl);
    }

    pub topic-Inv :
        (now : ℕ) (i : UserId) (c content : Bytes)
        → Inv (user_sets_topic_inner now s i c content).sv
    topic-Inv now i c content = record {
      valid = user_sets_topic-IsValid s v.valid now i c content;
      nicknames =
          user_sets_topic_cases (HasNicknames x) s now i c content v.nicknames
            (λ _ _ _ _ _ _. same_users-HasNicknames x s v.valid v.nicknames _ refl refl);
    }
