-- ===== src/Server/NicknameSteps.antt =====
-- What the steps of the server do to the nicknames.
use cirque.Base.{ℕ, true, Bytes, none, some, ◌≡◌, inl, inr, arith, Option-cases, ok}
use cirque.Base.Map.{get, modify, insert, contains_key, id_eq}
use cirque.Base.Map.Laws.{get-remove, get-modify, get-insert}
use cirque.Types.User.{
  UserId, RegisteredUser, RegisteringUser, change_nickname, from_registering, new_registering,
}
use cirque.Server.Valid.Departure.{without_user}
use cirque.Server.State.{ServerStateInner}
use cirque.Server.Nickname.{External, check_nickname}
use cirque.Server.Registration.{set_nickname}
use cirque.Server.Valid.{IsValid}
use cirque.Server.Valid.Registration.{without_ruser, moved, updated}
use cirque.Server.Nicknames.{
  nick_at, registering_is_not_registered, HasNicknames, HasNicknames-sub, HasNicknames-rename,
}

module _ (x : External) (s : ServerStateInner) (v : IsValid s) (h : HasNicknames x s) where
  pub change_nickname-HasNicknames :
      (i : UserId) (nick : Bytes)
      → check_nickname x s nick (some i) ≡ ok tt
      → contains_key i s.users ≡ true
      → HasNicknames x (record s { users = modify i (change_nickname nick) s.users })
  unfolding nick_at change_nickname
  change_nickname-HasNicknames i nick checked there =
      HasNicknames-rename x s _ v i nick checked
        (λ a p. ground (arith, get-modify i i (change_nickname nick) s.users))
        (λ j a ne p. ground (arith, get-modify i j (change_nickname nick) s.users)) h

  pub set_nickname-HasNicknames :
      (i : UserId) (nick : Bytes) (r : RegisteringUser)
      → check_nickname x s nick (some i) ≡ ok tt
      → get i s.registering_users ≡ some r
      → HasNicknames x (updated i (set_nickname nick) s)
  unfolding nick_at
  set_nickname-HasNicknames i nick r checked e =
      HasNicknames-rename x s _ v i nick checked
        (λ a p. ground (
          arith,
          get-modify i i (set_nickname nick) s.registering_users,
          registering_is_not_registered s v i r e,
        ))
        (λ j a ne p. ground (arith, get-modify i j (set_nickname nick) s.registering_users)) h

  pub updated-HasNicknames :
      (i : UserId) (f : RegisteringUser → RegisteringUser)
      → ((r : RegisteringUser) → (f r).nickname ≡ r.nickname)
      → HasNicknames x (updated i f s)
  unfolding nick_at
  updated-HasNicknames i f same =
      HasNicknames-sub x s _
        (λ j a p. elim (Option-cases (get j s.registering_users)) [
          | inl e ↦ ground (arith, get-modify i j f s.registering_users)
          | inr (r, e) ↦ ground (arith, get-modify i j f s.registering_users, same r)
        ])
        h

  pub modify_user-HasNicknames :
      (i : UserId) (f : RegisteredUser → RegisteredUser)
      → ((u : RegisteredUser) → (f u).nickname ≡ u.nickname)
      → HasNicknames x (record s { users = modify i f s.users })
  unfolding nick_at
  modify_user-HasNicknames i f same =
      HasNicknames-sub x s _
        (λ j a p. elim (Option-cases (get j s.users)) [
          | inl e ↦ ground (arith, get-modify i j f s.users)
          | inr (u, e) ↦ ground (arith, get-modify i j f s.users, same u)
        ])
        h

  pub without_ruser-HasNicknames : (i : UserId) → HasNicknames x (without_ruser i s)
  unfolding nick_at
  without_ruser-HasNicknames i =
      HasNicknames-sub x s _ (λ j a p. ground (arith, get-remove i j s.registering_users)) h

  -- A nickname goes with its user from the registering ones to the registered ones.
  pub moved-HasNicknames :
      (i : UserId) (r : RegisteringUser) (u : RegisteredUser)
      → get i s.registering_users ≡ some r
      → from_registering r ≡ some u
      → HasNicknames x (moved i u s)
  unfolding nick_at from_registering
  moved-HasNicknames i r u e f =
      HasNicknames-sub x s _
        (λ j a p. ground (
          arith,
          get-remove i j s.registering_users,
          get-insert u.user_id j u s.users,
          v.rusers_keyed i r,
          registering_is_not_registered s v i r e,
        ))
        h

  pub connect-HasNicknames :
      (i mailbox : ℕ)
      → get i s.users ≡ none
      → HasNicknames x (record s {
        registering_users = insert i (new_registering i mailbox) s.registering_users;
      })
  unfolding nick_at new_registering
  connect-HasNicknames i mailbox fresh =
      HasNicknames-sub x s _
        (λ j a p. ground (arith, get-insert i j (new_registering i mailbox) s.registering_users)) h

  pub same_users-HasNicknames :
      (t : ServerStateInner)
      → t.users ≡ s.users
      → t.registering_users ≡ s.registering_users
      → HasNicknames x t
  unfolding nick_at
  same_users-HasNicknames t p q = HasNicknames-sub x s t (λ j a e. ground arith) h

  -- A user and the channels it was in go.
  pub without_user-HasNicknames : (i : UserId) → HasNicknames x (without_user i s)
  unfolding nick_at
  without_user-HasNicknames i =
      HasNicknames-sub x s _
        (λ j a p. elim (Option-cases (get j s.users)) [
          | inl e ↦ ground (arith, get-remove i j s.users)
          | inr (u, e) ↦ ground (arith, get-remove i j s.users, v.disjoint j u)
        ])
        h
