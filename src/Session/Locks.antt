-- ===== src/Session/Locks.antt =====
-- PASS, NICK and USER of a client that registers take the lock of the server twice
-- (cirque-core/src/server_state.rs): for what they write down, and for the check of the registration.
use mathlib.Core.Path.{subst, sym}
use cirque.Base.{
  ℕ, Bytes, Option, none, some, ◌≡◌, refl, ok, err, inl, inr, arith, Option-cases, Result-cases,
}
use cirque.Base.Map.{get, modify, id_eq}
use cirque.Types.User.{RegisteringUser}
use cirque.Parser.Message.{Message as Parsed}
use cirque.ClientToServer.{Message}
use cirque.ClientToServer.Registry.{try_from}
use cirque.UserState.{UserState, RegisteringState, registering, registered, disconnected}
use cirque.Server.State.{ServerStateInner, Reply}
use cirque.Server.Nickname.{External, check_nickname}
use cirque.Server.Registration.{
  set_password, set_nickname, set_names, check_ruser_registration_state, ruser_uses_password,
  ruser_uses_nick, ruser_uses_username,
}
use cirque.Server.Valid.Registration.{updated}
use cirque.Session.{handle_message, dispatch_registering, unchanged}

-- `let Some(user) = registering_users.get_mut(&user_id) else { return }`, and the assignment.
abbrev update :
    ServerStateInner
    → RegisteringState
    → (RegisteringUser → RegisteringUser)
    → Option ServerStateInner
update sv user_state f = elim (get user_state.user_id sv.registering_users) [
  | none ↦ none
  | some user ↦
      some (record sv { registering_users = modify user_state.user_id f sv.registering_users })
]

-- What the first lock leaves, where the method goes on to the second one.
unfoldable first_lock :
    External → ServerStateInner → RegisteringState → Message → Option ServerStateInner
unfolding check_nickname
first_lock x sv st (Message.pass password) = update sv st (set_password password)
first_lock x sv st (Message.nick nick) = elim (check_nickname x sv nick (some st.user_id)) [
  | err error ↦ none
  | ok _ ↦ update sv st (set_nickname nick)
]
first_lock x sv st (Message.user username realname) = update sv st (set_names username realname)
first_lock x sv st _ = none

unfoldable pub locked : External → ServerStateInner → UserState → Parsed → Option ServerStateInner
unfolding try_from first_lock
locked x sv (registering st) message = elim (try_from message) [
  | ok m ↦ first_lock x sv st m
  | err error ↦ none
]
locked x sv (registered st) message = none
locked x sv disconnected message = none

-- The second lock.
unfoldable pub checked : ServerStateInner → UserState → Reply
unfolding check_ruser_registration_state
checked sv (registering st) = check_ruser_registration_state sv st
checked sv (registered st) = unchanged sv (registered st)
checked sv disconnected = unchanged sv disconnected

-- What the first lock can write down.
pub data Writes (x : External) (s : ServerStateInner) (st : RegisteringState)
    : ServerStateInner → Type 0 where
  password : (p : Bytes) → Writes x s st (updated st.user_id (set_password p) s)
  names : (u r : Bytes) → Writes x s st (updated st.user_id (set_names u r) s)
  nickname :
      (n : Bytes) (r : RegisteringUser)
      → check_nickname x s n (some st.user_id) ≡ ok tt
      → get st.user_id s.registering_users ≡ some r
      → Writes x s st (updated st.user_id (set_nickname n) s)

update-some :
    (s : ServerStateInner) (st : RegisteringState) (f : RegisteringUser → RegisteringUser)
    (t : ServerStateInner)
    → update s st f ≡ some t
    → (r : RegisteringUser) × (get st.user_id s.registering_users ≡ some r)
      × (updated st.user_id f s ≡ t)
update-some s st f t h = elim (Option-cases (get st.user_id s.registering_users)) [
  | inl e ↦ absurd (ground arith)
  | inr (r, e) ↦ (r, e, ground arith)
]

first_lock-Writes :
    (x : External) (s : ServerStateInner) (st : RegisteringState) (m : Message)
    (t : ServerStateInner)
    → first_lock x s st m ≡ some t
    → Writes x s st t × ((dispatch_registering x s st m) ≡ check_ruser_registration_state t st)
unfolding first_lock dispatch_registering ruser_uses_password ruser_uses_nick ruser_uses_username
first_lock-Writes x s st (Message.pass p) t h =
    let (r, e, same) = update-some s st (set_password p) t h in
    (subst (Writes x s st) same (password p), rw (sym same) (ground (arith, e)))
first_lock-Writes x s st (Message.nick n) t h =
    elim (Result-cases (check_nickname x s n (some st.user_id))) [
      | inl (done, k) ↦
          let (r, e, same) = update-some s st (set_nickname n) t (ground arith) in
          (subst (Writes x s st) same (nickname n r k e), rw (sym same) (ground (arith, k, e)))
      | inr (e, k) ↦ absurd (ground arith)
    ]
first_lock-Writes x s st (Message.user u r) t h =
    let (w, e, same) = update-some s st (set_names u r) t h in
    (subst (Writes x s st) same (names u r), rw (sym same) (ground (arith, e)))
first_lock-Writes x s st _ t h = absurd (cc)

pub locked-Writes :
    (x : External) (now : ℕ) (s : ServerStateInner) (us : UserState) (m : Parsed)
    (t : ServerStateInner)
    → locked x s us m ≡ some t
    → (st : RegisteringState) × (us ≡ registering st)
      × Writes x s st t
      × (handle_message x now s us m ≡ checked t us)
unfolding locked handle_message checked
locked-Writes x now s (registering st) m t h = elim (Result-cases (try_from m)) [
  | inl (a, e) ↦
      let (w, same) = first_lock-Writes x s st a t (ground arith) in
      (st, refl, w, rw (e, handle_message) same)
  | inr (a, e) ↦ absurd (ground arith)
]
locked-Writes x now s (registered st) m t h = absurd (cc)
locked-Writes x now s disconnected m t h = absurd (cc)
