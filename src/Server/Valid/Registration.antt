-- ===== src/Server/Valid/Registration.antt =====
-- The operations of a client that registers keep the state valid.
use cirque.Base.{
  ℕ, Bool, true, Bytes, bytes_eq, Option, none, some, unwrap_or, [], ◌≡◌, refl, inl, inr, arith,
  Option-cases, ok,
}
use cirque.Base.Map.{get, insert, remove, modify, id_eq}
use cirque.Base.Map.Laws.{get-remove}
use cirque.Types.User.{
  UserId, MailboxHandle, RegisteredUser, RegisteringUser, new_registering, from_registering,
}
use cirque.UserState.{RegisteringState}
use cirque.Server.State.{ServerStateInner}
use cirque.Server.Nickname.{External, check_nickname}
use cirque.Server.Registration.{
  new_registering_user, check_ruser_registration_state, ruser_uses_password, ruser_uses_nick,
  ruser_uses_username, ruser_disconnects_voluntarily, ruser_disconnects_suddently, set_password,
  set_nickname, set_names,
}
use cirque.Server.Valid.{IsValid, insert_ruser-IsValid, remove_ruser-IsValid, insert_user-IsValid}

abbrev pub without_ruser : UserId → ServerStateInner → ServerStateInner
without_ruser i s = record s { registering_users = remove i s.registering_users }

-- The state in which the user has moved to the registered ones.
abbrev pub moved : UserId → RegisteredUser → ServerStateInner → ServerStateInner
moved i user s = record s {
  registering_users = remove i s.registering_users;
  users = insert user.user_id user s.users;
}

abbrev pub passwords_agree : ServerStateInner → RegisteringUser → Bool
passwords_agree s user = bytes_eq (unwrap_or user.password []) (unwrap_or s.password [])

pub from_registering-user_id :
    (u : RegisteringUser) (new_user : RegisteredUser)
    → from_registering u ≡ some new_user
    → new_user.user_id ≡ u.user_id
unfolding from_registering
from_registering-user_id u new_user h = ground arith

pub check_ruser_registration_state_cases {ℓ} :
    (P : ServerStateInner → Type ℓ) (s : ServerStateInner) (user_state : RegisteringState)
    → P s
    → P (without_ruser user_state.user_id s)
    → ((user : RegisteringUser) (new_user : RegisteredUser)
        → get user_state.user_id s.registering_users ≡ some user
        → from_registering user ≡ some new_user
        → passwords_agree s user ≡ true
        → P (moved user_state.user_id new_user s))
    → P (check_ruser_registration_state s user_state).sv
unfolding check_ruser_registration_state
check_ruser_registration_state_cases P s user_state p q r =
    elim (Option-cases (get user_state.user_id s.registering_users)) [
      | inl e ↦ ground arith
      | inr (user, e) ↦ elim (Option-cases (from_registering user)) [
        | inl f ↦ ground arith
        | inr (new_user, f) ↦ ground (arith, r user new_user)
      ]
    ]

module _ (s : ServerStateInner) (v : IsValid s) where
  moved-IsValid :
      (i : UserId) (user : RegisteringUser) (new_user : RegisteredUser)
      → get i s.registering_users ≡ some user
      → from_registering user ≡ some new_user
      → IsValid (moved i new_user s)
  moved-IsValid i user new_user e f =
      insert_user-IsValid (without_ruser i s) (remove_ruser-IsValid s v i) new_user (
        ground (
          arith,
          from_registering-user_id user new_user,
          v.rusers_keyed i user,
          get-remove i new_user.user_id s.registering_users,
        ))

  pub check_ruser_registration_state-IsValid :
      (user_state : RegisteringState) → IsValid (check_ruser_registration_state s user_state).sv
  check_ruser_registration_state-IsValid user_state =
      check_ruser_registration_state_cases IsValid s user_state v
        (remove_ruser-IsValid s v user_state.user_id)
        (λ user new_user e f _. moved-IsValid user_state.user_id user new_user e f)

  pub new_registering_user-IsValid :
      (i : UserId) (mailbox : MailboxHandle) (now : ℕ)
      → get i s.users ≡ none
      → IsValid (new_registering_user s i mailbox now).sv
  unfolding new_registering_user
  new_registering_user-IsValid i mailbox now fresh =
      insert_ruser-IsValid s v i (new_registering i mailbox) refl fresh

-- A password, a nickname or the names are written down, and the registration is checked.
abbrev pub updated :
    UserId → (RegisteringUser → RegisteringUser) → ServerStateInner → ServerStateInner
updated i f s = record s { registering_users = modify i f s.registering_users }

module _ {ℓ} (P : ServerStateInner → Type ℓ) (s : ServerStateInner)
    (user_state : RegisteringState) where
  pub ruser_uses_password_cases :
      (password : Bytes)
      → P s
      → P
          (check_ruser_registration_state
            (updated user_state.user_id (set_password password) s)
            user_state).sv
      → P (ruser_uses_password s user_state password).sv
  unfolding ruser_uses_password
  ruser_uses_password_cases password p q = ground arith

  pub ruser_uses_nick_cases :
      (x : External) (nick : Bytes)
      → P s
      → ((r : RegisteringUser)
          → check_nickname x s nick (some user_state.user_id) ≡ ok tt
          → get user_state.user_id s.registering_users ≡ some r
          → P
              (check_ruser_registration_state
                (updated user_state.user_id (set_nickname nick) s)
                user_state).sv)
      → P (ruser_uses_nick x s user_state nick).sv
  unfolding ruser_uses_nick
  ruser_uses_nick_cases x nick p q =
      elim (Option-cases (get user_state.user_id s.registering_users)) [
        | inl e ↦ ground arith
        | inr (r, e) ↦ ground (arith, q r)
      ]

  pub ruser_uses_username_cases :
      (username realname : Bytes)
      → P s
      → P
          (check_ruser_registration_state
            (updated user_state.user_id (set_names username realname) s)
            user_state).sv
      → P (ruser_uses_username s user_state username realname).sv
  unfolding ruser_uses_username
  ruser_uses_username_cases username realname p q = ground arith

  pub ruser_disconnects_voluntarily_cases :
      (reason : Option Bytes)
      → P s
      → P (without_ruser user_state.user_id s)
      → P (ruser_disconnects_voluntarily s user_state reason).sv
  unfolding ruser_disconnects_voluntarily
  ruser_disconnects_voluntarily_cases reason p q = ground arith

  pub ruser_disconnects_suddently_cases :
      P s → P (without_ruser user_state.user_id s) → P (ruser_disconnects_suddently s user_state).sv
  unfolding ruser_disconnects_suddently
  ruser_disconnects_suddently_cases p q = ground arith
