-- ===== src/Invariant/Mailboxes.antt =====
-- Whose mailbox a client of the server has (cirque-core/src/types.rs), where the mailbox that a
-- connection makes has the id of its client as its handle.
pub mod Keeping
use mathlib.Core.Path.{subst, sym}
use cirque.Base.{ℕ, Bytes, Option, some, ◌≡◌, refl, arith, inl, inr, Option-cases}
use cirque.Base.Map.{get, modify, id_eq}
use cirque.Base.Map.Laws.{get-insert, get-remove, get-modify}
use cirque.Types.User.{
  UserId, RegisteredUser, RegisteringUser, new_registering, from_registering, change_nickname,
}
use cirque.UserState.{
  RegisteringState, RegisteredState, UserState, registering, registered, disconnected,
}
use cirque.Server.State.{ServerStateInner}
use cirque.Server.Nickname.{External}
use cirque.Server.Registration.{
  check_ruser_registration_state, new_registering_user, set_password, set_nickname, set_names,
}
use cirque.Server.Departure.{
  dispose_state, user_disconnects_voluntarily, user_disconnects_suddently,
}
use cirque.Server.Messaging.{set_away}
use cirque.Server.Settings.{user_changes_channel_mode}
use cirque.Server.Topics.{user_sets_topic}
use cirque.Server.Valid.{IsValid, modify_ruser-IsValid}
use cirque.Server.Valid.Membership.{
  user_joins_channel_cases, user_leaves_channel_cases, user_joins_channels_inv,
  user_leaves_channels_inv, user_names_channels_inv, report-fst,
}
use cirque.Server.Valid.Departure.{disconnect_cases, user_changes_nick_cases, without_user}
use cirque.Server.Valid.Registration.{
  check_ruser_registration_state_cases, ruser_uses_password_cases, ruser_uses_nick_cases,
  ruser_uses_username_cases, ruser_disconnects_voluntarily_cases, ruser_disconnects_suddently_cases,
  updated, without_ruser, moved, from_registering-user_id,
}
use cirque.Server.Valid.Settings.{
  user_changes_channel_mode_cases, user_sets_topic_cases, user_indicates_away_cases,
}
use cirque.Invariant.Dispatch.{Keeps}

pub record OwnMailboxes (s : ServerStateInner) : Type 0 where
  pub user : (i : UserId) (u : RegisteredUser) → get i s.users ≡ some u → u.mailbox ≡ i
  pub ruser :
      (i : UserId) (u : RegisteringUser) → get i s.registering_users ≡ some u → u.mailbox ≡ i

pub same-OwnMailboxes :
    (s t : ServerStateInner)
    → t.users ≡ s.users
    → t.registering_users ≡ s.registering_users
    → OwnMailboxes s
    → OwnMailboxes t
same-OwnMailboxes s t p q h = record { user = rw p h.user; ruser = rw q h.ruser }

from_registering-mailbox :
    (r : RegisteringUser) (u : RegisteredUser) → from_registering r ≡ some u → u.mailbox ≡ r.mailbox
unfolding from_registering
from_registering-mailbox r u h = ground arith

module _ (s : ServerStateInner) (h : OwnMailboxes s) where
  pub modify_user-OwnMailboxes :
      (i : UserId) (f : RegisteredUser → RegisteredUser)
      → ((u : RegisteredUser) → (f u).mailbox ≡ u.mailbox)
      → OwnMailboxes (record s { users = modify i f s.users })
  modify_user-OwnMailboxes i f same = record {
    user = λ j u e. elim (Option-cases (get j s.users)) [
      | inl k ↦ ground (arith, get-modify i j f s.users)
      | inr (w, k) ↦ ground (arith, get-modify i j f s.users, h.user j w, same w)
    ];
    ruser = h.ruser;
  }

  pub updated-OwnMailboxes :
      (i : UserId) (f : RegisteringUser → RegisteringUser)
      → ((u : RegisteringUser) → (f u).mailbox ≡ u.mailbox)
      → OwnMailboxes (updated i f s)
  updated-OwnMailboxes i f same = record {
    user = h.user;
    ruser = λ j u e. elim (Option-cases (get j s.registering_users)) [
      | inl k ↦ ground (arith, get-modify i j f s.registering_users)
      | inr (w, k) ↦ ground (arith, get-modify i j f s.registering_users, h.ruser j w, same w)
    ];
  }

  pub without_ruser-OwnMailboxes : (i : UserId) → OwnMailboxes (without_ruser i s)
  without_ruser-OwnMailboxes i = record {
    user = h.user;
    ruser = λ j u e. ground (arith, get-remove i j s.registering_users, h.ruser j u);
  }

  pub without_user-OwnMailboxes : (i : UserId) → OwnMailboxes (without_user i s)
  without_user-OwnMailboxes i = record {
    user = λ j u e. ground (arith, get-remove i j s.users, h.user j u);
    ruser = h.ruser;
  }

  moved-OwnMailboxes :
      IsValid s
      → (i : UserId) (r : RegisteringUser) (u : RegisteredUser) → get i s.registering_users ≡ some r
      → from_registering r ≡ some u
      → OwnMailboxes (moved i u s)
  moved-OwnMailboxes v i r u e f = record {
    user = λ j w k. ground (
      arith,
      get-insert u.user_id j u s.users,
      h.user j w,
      h.ruser i r,
      v.rusers_keyed i r,
      from_registering-user_id r u f,
      from_registering-mailbox r u f,
    );
    ruser = λ j w k. ground (arith, get-remove i j s.registering_users, h.ruser j w);
  }

  pub check_registration-OwnMailboxes :
      IsValid s → (st : RegisteringState) → OwnMailboxes (check_ruser_registration_state s st).sv
  check_registration-OwnMailboxes v st =
      check_ruser_registration_state_cases OwnMailboxes s st h
        (without_ruser-OwnMailboxes st.user_id)
        (λ r u e f _. moved-OwnMailboxes v st.user_id r u e f)

  pub new_registering_user-OwnMailboxes :
      (i now : ℕ) → OwnMailboxes (new_registering_user s i i now).sv
  unfolding new_registering_user new_registering
  new_registering_user-OwnMailboxes i now = record {
    user = h.user;
    ruser = λ j w k.
        ground (arith, get-insert i j (new_registering i i) s.registering_users, h.ruser j w);
  }
