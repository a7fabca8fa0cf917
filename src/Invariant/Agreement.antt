-- ===== src/Invariant/Agreement.antt =====
-- A session and the server agree on what the client is (cirque-core/src/user_state.rs): a session
-- that registers is among the registering users, a registered one among the users, and one that is
-- gone among neither.
use cirque.Base.{true, Bytes, Option, none, ◌≡◌, refl, inl, inr, arith, Option-cases}
use cirque.Base.Map.{get, contains_key, id_eq}
use cirque.Base.Map.Laws.{get-remove, get-modify, get-insert}
use cirque.Types.User.{UserId, RegisteringUser, from_registering}
use cirque.UserState.{
  UserState, RegisteringState, RegisteredState, registering, registered, disconnected,
  from_registering_state,
}
use cirque.Server.State.{ServerStateInner, Reply}
use cirque.Server.Nickname.{External}
use cirque.Server.Registration.{
  check_ruser_registration_state, ruser_uses_password, ruser_uses_nick, ruser_uses_username,
  ruser_disconnects_voluntarily, set_password, set_nickname, set_names,
}
use cirque.Server.Departure.{disconnect}
use cirque.Server.Valid.{IsValid, modify_ruser-IsValid}
use cirque.Server.Valid.Registration.{from_registering-user_id, updated}
use cirque.Server.Valid.Departure.{disconnect_lem}
use cirque.Server.Nicknames.{registering_is_not_registered}

-- What the session with this id takes its client for is what the server takes it for.
abbrev pub Agrees : UserId → ServerStateInner → UserState → Type 0
Agrees i s (registering st) =
    (st.user_id ≡ i) × (contains_key st.user_id s.registering_users ≡ true)
Agrees i s (registered st) = (st.user_id ≡ i) × (contains_key st.user_id s.users ≡ true)
Agrees i s disconnected = (get i s.users ≡ none) × (get i s.registering_users ≡ none)

abbrev pub Agreeing : UserId → Reply → Type 0
Agreeing i r = Agrees i r.sv r.user_state

-- A reply to a client that stays what it is.
pub Agreeing-same :
    (i : UserId) (s : ServerStateInner) (us : UserState) (r : Reply)
    → Agrees i s us
    → r.sv ≡ s
    → r.user_state ≡ us
    → Agreeing i r
Agreeing-same i s us r a p q = rw (p, q) a

pub Agreeing-registered :
    (st : RegisteredState) (r : Reply)
    → contains_key st.user_id r.sv.users ≡ true
    → r.user_state ≡ registered st
    → Agreeing st.user_id r
Agreeing-registered st r there q = rw q (refl, there)

module _ (s : ServerStateInner) (v : IsValid s) (st : RegisteringState) where
  pub check_registration-Agreeing :
      contains_key st.user_id s.registering_users ≡ true
      → Agreeing st.user_id (check_ruser_registration_state s st)
  unfolding check_ruser_registration_state from_registering_state
  check_registration-Agreeing there = elim (Option-cases (get st.user_id s.registering_users)) [
    | inl e ↦ ground arith
    | inr (u, e) ↦ elim (Option-cases (from_registering u)) [
      | inl f ↦ ground (
        arith,
        get-remove st.user_id st.user_id s.registering_users,
        registering_is_not_registered s v st.user_id u,
      )
      | inr (w, f) ↦ ground (
        arith,
        get-remove st.user_id st.user_id s.registering_users,
        get-insert w.user_id st.user_id w s.users,
        from_registering-user_id u w,
        v.rusers_keyed st.user_id u,
        registering_is_not_registered s v st.user_id u,
      )
    ]
  ]

module _ (s : ServerStateInner) (v : IsValid s) (st : RegisteringState)
    (there : contains_key st.user_id s.registering_users ≡ true) where
  updated-Agreeing :
      (f : RegisteringUser → RegisteringUser)
      → ((u : RegisteringUser) → (f u).user_id ≡ u.user_id)
      → Agreeing st.user_id (check_ruser_registration_state (updated st.user_id f s) st)
  updated-Agreeing f same =
      check_registration-Agreeing (updated st.user_id f s)
        (modify_ruser-IsValid s v st.user_id f same) st
        (ground (arith, get-modify st.user_id st.user_id f s.registering_users))

  pub ruser_uses_password-Agreeing : (p : Bytes) → Agreeing st.user_id (ruser_uses_password s st p)
  unfolding ruser_uses_password
  ruser_uses_password-Agreeing p = ground (arith, updated-Agreeing (set_password p) (λ _. refl))

  pub ruser_uses_username-Agreeing :
      (u r : Bytes) → Agreeing st.user_id (ruser_uses_username s st u r)
  unfolding ruser_uses_username
  ruser_uses_username-Agreeing username realname =
      ground (arith, updated-Agreeing (set_names username realname) (λ _. refl))

  pub ruser_uses_nick-Agreeing :
      (x : External) (nick : Bytes) → Agreeing st.user_id (ruser_uses_nick x s st nick)
  unfolding ruser_uses_nick
  ruser_uses_nick-Agreeing x nick = ground (arith, updated-Agreeing (set_nickname nick) (λ _. refl))

  pub ruser_disconnects_voluntarily-Agreeing :
      (r : Option Bytes) → Agreeing st.user_id (ruser_disconnects_voluntarily s st r)
  unfolding ruser_disconnects_voluntarily
  ruser_disconnects_voluntarily-Agreeing r =
      elim (Option-cases (get st.user_id s.registering_users)) [
        | inl e ↦ absurd (ground arith)
        | inr (u, e) ↦ ground (
          arith,
          get-remove st.user_id st.user_id s.registering_users,
          registering_is_not_registered s v st.user_id u,
        )
      ]

module _ (s : ServerStateInner) (v : IsValid s) (st : RegisteredState)
    (there : contains_key st.user_id s.users ≡ true) where
  pub disconnect-gone :
      (reason farewell : Bytes)
      → (get st.user_id (disconnect s st.user_id reason farewell).0.users ≡ none)
        × (get st.user_id (disconnect s st.user_id reason farewell).0.registering_users ≡ none)
  disconnect-gone reason farewell = elim (Option-cases (get st.user_id s.users)) [
    | inl e ↦ absurd (ground arith)
    | inr (u, e) ↦
        rw (disconnect_lem s v st.user_id u reason farewell e)
          (ground (arith, get-remove st.user_id st.user_id s.users), v.disjoint st.user_id u e)
  ]
