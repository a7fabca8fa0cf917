-- ===== src/Invariant/Locks.antt =====
-- The two locks of PASS, NICK and USER (cirque-core/src/server_state.rs), each as a step of its own.
use mathlib.Core.Path.{sym, subst}
use cirque.Base.{some, ◌≢◌, ap, refl, arith}
use cirque.Base.Map.{id_eq}
use cirque.Base.Map.Laws.{get-modify}
use cirque.Types.User.{UserId, RegisteringUser}
use cirque.UserState.{UserState, RegisteringState, registering, registered, disconnected}
use cirque.Server.State.{ServerStateInner}
use cirque.Server.Nickname.{External}
use cirque.Server.Registration.{set_password, set_nickname, set_names}
use cirque.Server.NicknameSteps.{set_nickname-HasNicknames}
use cirque.Server.Valid.{IsValid}
use cirque.Server.Valid.Registration.{updated}
use cirque.Server.Valid.{modify_ruser-IsValid}
use cirque.Session.Locks.{Writes, password, names, nickname, checked}
use cirque.Invariant.Kept.{Inv, updated-Inv, check_registration-Inv}
use cirque.Invariant.Agreement.{Agrees, Agreeing, check_registration-Agreeing}
use cirque.Invariant.Isolation.{owner}
use cirque.Invariant.Untouched.{
  Untouched, Untouched-refl, updated-Untouched, check_registration-Untouched,
}
use cirque.Invariant.Mailboxes.{OwnMailboxes, updated-OwnMailboxes, check_registration-OwnMailboxes}

module _ (x : External) (s : ServerStateInner) (st : RegisteringState) where
  pub Writes-Inv : {t : ServerStateInner} → Writes x s st t → Inv x s → Inv x t
  Writes-Inv (password p) v = updated-Inv x s v st.user_id (set_password p) (λ _. refl) (λ _. refl)
  Writes-Inv (names u r) v = updated-Inv x s v st.user_id (set_names u r) (λ _. refl) (λ _. refl)
  Writes-Inv (nickname n r checked e) v = record {
    valid = modify_ruser-IsValid s v.valid st.user_id (set_nickname n) (λ _. refl);
    nicknames = set_nickname-HasNicknames x s v.valid v.nicknames st.user_id n r checked e;
  }

  updated-Agrees :
      (f : RegisteringUser → RegisteringUser) (i : UserId)
      → Agrees i s (registering st)
      → Agrees i (updated st.user_id f s) (registering st)
  updated-Agrees f i (same, there) =
      (same, ground (arith, get-modify st.user_id st.user_id f s.registering_users))

  pub Writes-Agrees :
      {t : ServerStateInner}
      → Writes x s st t
      → (i : UserId) → Agrees i s (registering st)
      → Agrees i t (registering st)
  Writes-Agrees (password p) i h = updated-Agrees (set_password p) i h
  Writes-Agrees (names u r) i h = updated-Agrees (set_names u r) i h
  Writes-Agrees (nickname n r checked e) i h = updated-Agrees (set_nickname n) i h

  pub Writes-Untouched :
      {t : ServerStateInner} → Writes x s st t → (j : UserId) → j ≢ st.user_id → Untouched j s t
  Writes-Untouched (password p) j ne = updated-Untouched s st.user_id j ne (set_password p)
  Writes-Untouched (names u r) j ne = updated-Untouched s st.user_id j ne (set_names u r)
  Writes-Untouched (nickname n r checked e) j ne =
      updated-Untouched s st.user_id j ne (set_nickname n)

  pub Writes-OwnMailboxes :
      {t : ServerStateInner} → Writes x s st t → OwnMailboxes s → OwnMailboxes t
  Writes-OwnMailboxes (password p) h =
      updated-OwnMailboxes s h st.user_id (set_password p) (λ _. refl)
  Writes-OwnMailboxes (names u r) h =
      updated-OwnMailboxes s h st.user_id (set_names u r) (λ _. refl)
  Writes-OwnMailboxes (nickname n r checked e) h =
      updated-OwnMailboxes s h st.user_id (set_nickname n) (λ _. refl)

pub checked-Inv :
    (x : External) (s : ServerStateInner) → Inv x s → (us : UserState) → Inv x (checked s us).sv
unfolding checked
checked-Inv x s v (registering st) = check_registration-Inv x s v st
checked-Inv x s v (registered st) = v
checked-Inv x s v disconnected = v

module _ (s : ServerStateInner) (v : IsValid s) where
  pub checked-Agrees : (i : UserId) (us : UserState) → Agrees i s us → Agreeing i (checked s us)
  unfolding checked
  checked-Agrees i (registering st) (same, there) =
      subst (λ k. Agreeing k (checked s (registering st))) same
        (check_registration-Agreeing s v st there)
  checked-Agrees i (registered st) h = h
  checked-Agrees i disconnected h = h

  pub checked-Untouched :
      (j : UserId) (us : UserState) → owner us ≢ some j → Untouched j s (checked s us).sv
  unfolding checked
  checked-Untouched j (registering st) ne =
      check_registration-Untouched s st.user_id j (λ e. ne (ap some (sym e))) st refl v
  checked-Untouched j (registered st) ne = Untouched-refl j s
  checked-Untouched j disconnected ne = Untouched-refl j s

  pub checked-OwnMailboxes : OwnMailboxes s → (us : UserState) → OwnMailboxes (checked s us).sv
  unfolding checked
  checked-OwnMailboxes h (registering st) = check_registration-OwnMailboxes s h v st
  checked-OwnMailboxes h (registered st) = h
  checked-OwnMailboxes h disconnected = h
