-- ===== src/Server/Admission.antt =====
-- Who becomes a registered user: the end of the registration (cirque-core/src/server_state.rs).
use cirque.Base.{true, false, none, some, ◌≡◌, ◌⊎◌, inl, inr, arith, Option-cases, Bool-cases}
use cirque.Base.Map.{get, id_eq}
use cirque.Base.Map.Laws.{get-insert, get-remove}
use cirque.Types.User.{RegisteringUser, from_registering, is_ready}
use cirque.UserState.{
  RegisteringState, registering, registered, disconnected, from_registering_state,
}
use cirque.Server.State.{ServerStateInner}
use cirque.Server.Registration.{check_ruser_registration_state}
use cirque.Server.Valid.{IsValid}
use cirque.Server.Valid.Registration.{passwords_agree, from_registering-user_id}

module _ (s : ServerStateInner) (v : IsValid s) (state : RegisteringState) where
  -- In a valid state, the check at the end of each command of a client that is registering has one of
  -- three outcomes. If the nickname or the username is missing, the session goes on registering and
  -- the server stays as it is. Otherwise the client leaves the registering ones: if its password is
  -- not the server's it is disconnected and the registered users stay as they are, and if the
  -- passwords agree its session is a registered one and its id has the user made from the client.
  pub check_ruser_registration_state-registered :
      (user : RegisteringUser)
      → get state.user_id s.registering_users ≡ some user
      → (((check_ruser_registration_state s state).user_state ≡ registering state)
          × (is_ready user ≡ false)
          × ((check_ruser_registration_state s state).sv ≡ s))
        ⊎ ((is_ready user ≡ true)
            × (get state.user_id (check_ruser_registration_state s state).sv.registering_users
                ≡ none)
            × ((((check_ruser_registration_state s state).user_state ≡ disconnected)
                  × (passwords_agree s user ≡ false)
                  × ((check_ruser_registration_state s state).sv.users ≡ s.users))
                ⊎ ((passwords_agree s user ≡ true)
                    × ((check_ruser_registration_state s state).user_state
                        ≡ registered (from_registering_state state))
                    × (get state.user_id (check_ruser_registration_state s state).sv.users
                        ≡ from_registering user))))
  unfolding check_ruser_registration_state from_registering
  check_ruser_registration_state-registered user e = elim (Bool-cases (is_ready user)) [
    | inr waits ↦ inl (ground arith, ground arith, ground arith)
    | inl ready ↦ inr (
      ready,
      ground (arith, get-remove state.user_id state.user_id s.registering_users),
      elim (Bool-cases (passwords_agree s user)) [
        | inr wrong ↦ inl (ground arith, wrong, ground arith)
        | inl agree ↦ elim (Option-cases (from_registering user)) [
          | inl f ↦ absurd (ground arith)
          | inr (new_user, f) ↦ inr (
            agree,
            ground arith,
            ground (
              arith,
              get-insert new_user.user_id state.user_id new_user s.users,
              from_registering-user_id user new_user f,
              v.rusers_keyed state.user_id user,
            ),
          )
        ]
      ],
    )
  ]
