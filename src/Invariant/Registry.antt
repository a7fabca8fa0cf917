-- ===== src/Invariant/Registry.antt =====
-- The maps of the server and the sessions say the same of every client, at any time.
use mathlib.Core.Logic.{◌↔◌}
use mathlib.Core.Path.{subst, sym, ◌∙◌}
use cirque.Base.{ℕ, true, ◌==◌, some, ◌≡◌, ◌≢◌, refl, inl, inr, arith, Option-cases, Bool-cases}
use cirque.Base.Map.{get, contains_key, id_eq}
use cirque.Base.Map.Laws.{get-insert}
use cirque.Types.User.{UserId, new_registering}
use cirque.UserState.{
  UserState, RegisteringState, RegisteredState, registering, registered, disconnected,
}
use cirque.UserState
use cirque.Server.State.{ServerStateInner, new}
use cirque.Server.Nickname.{External}
use cirque.Server.Registration.{new_registering_user}
use cirque.Server.Valid.{IsValid}
use cirque.Session.{aggressively_reduce_timeout}
use cirque.Invariant.Untouched.{Untouched, Untouched-refl}
use cirque.Invariant.Isolation.{owner, session-Untouched}
use cirque.Invariant.Agreement.{Agrees}
use cirque.Invariant.Sessions.{handle_message-Agrees, check_timeout-Agrees, dispose_state-gone}
use cirque.Session.Locks.{Writes, locked-Writes}
use cirque.Invariant.Locks.{Writes-Agrees, Writes-Untouched, checked-Agrees, checked-Untouched}
use cirque.Invariant.Reach.{Reload, Step, Reach, reload-same, Reach-IsValid}
use cirque.Invariant.World.{
  World, WorldStep, WorldReach, connect, receive, lock, check, tick, close, reduce, reload, start,
  next, set_session,
}

-- A client that another session left alone is what its own session takes it for.
Untouched-Agrees :
    (j : UserId) (s t : ServerStateInner) (us : UserState)
    → Untouched j s t
    → Agrees j s us
    → Agrees j t us
Untouched-Agrees j s t (registering st) u (same, h) = (same, cc (u.ruser))
Untouched-Agrees j s t (registered st) u (same, h) = (same, cc (u.user))
Untouched-Agrees j s t disconnected u (p, q) = (cc (u.user), cc (u.ruser))

Agrees-owner :
    (i j : UserId) (s : ServerStateInner) (us : UserState)
    → Agrees i s us
    → i ≢ j
    → owner us ≢ some j
Agrees-owner i j s (registering st) (same, h) ne = λ e. ne (cc)
Agrees-owner i j s (registered st) (same, h) ne = λ e. ne (cc)
Agrees-owner i j s disconnected h ne = λ e. cc

-- All sessions agree with the server.
abbrev pub AllAgree : World → Type 0
AllAgree w = (i : UserId) → Agrees i w.server (w.sessions i)

module _ (w : World) (agree : AllAgree w) (i : UserId) where
  -- A session that agrees after its call, which left the others alone.
  replied-AllAgree :
      (t : ServerStateInner) (us : UserState)
      → Agrees i t us
      → ((j : UserId) → owner (w.sessions i) ≢ some j → i ≢ j → Untouched j w.server t)
      → AllAgree (record { server = t; sessions = set_session i us w.sessions })
  replied-AllAgree t us own others j = elim (Bool-cases (i == j)) [
    | inl same ↦ let e : i ≡ j = ground arith in rw same (subst (λ k. Agrees k t us) e own)
    | inr other ↦ rw other (
        Untouched-Agrees j w.server t (w.sessions j)
          (others j (Agrees-owner i j w.server (w.sessions i) (agree i) (ground arith))
            (ground arith))
          (agree j))
  ]

one_map :
    (s : ServerStateInner)
    → IsValid s
    → (i : UserId) → contains_key i s.users ≡ true
    → contains_key i s.registering_users ≢ true
one_map s v i p q = elim (Option-cases (get i s.users)) [
  | inl e ↦ absurd (ground arith)
  | inr (u, e) ↦ absurd (ground (arith, v.disjoint i u))
]

-- Where a session agrees with a valid server, it says in which of the maps its client is.
sessions_iff :
    (s : ServerStateInner)
    → IsValid s
    → (i : UserId) (us : UserState) → Agrees i s us
    → ((contains_key i s.users ≡ true) ↔ ((st : RegisteredState) × (us ≡ registered st)))
      × ((contains_key i s.registering_users ≡ true)
          ↔ ((st : RegisteringState) × (us ≡ registering st)))
sessions_iff s v i (registering st) (same, h) =
    ((λ there. absurd (one_map s v i there (cc)), λ (q, e). cc), (λ _. (st, refl), λ _. cc))
sessions_iff s v i (registered st) (same, h) =
    ((λ _. (st, refl), λ _. cc), (λ there. absurd (one_map s v i (cc) there), λ (q, e). cc))
sessions_iff s v i disconnected (p, q) =
    ((λ h. absurd (ground arith), λ (r, e). cc), (λ h. absurd (ground arith), λ (r, e). cc))

connect-Untouched :
    (s : ServerStateInner) (i mailbox now j : ℕ)
    → i ≢ j
    → Untouched j s (new_registering_user s i mailbox now).sv
unfolding new_registering_user
connect-Untouched s i mailbox now j ne = record {
  user = refl;
  ruser = ground (arith, get-insert i j (new_registering i mailbox) s.registering_users);
  member = λ c. refl;
}

connect-Agrees :
    (s : ServerStateInner) (i mailbox now : ℕ)
    → Agrees i
        (new_registering_user s i mailbox now).sv
        (new_registering_user s i mailbox now).user_state
unfolding new_registering_user UserState.new
connect-Agrees s i mailbox now =
    (refl, ground (arith, get-insert i i (new_registering i mailbox) s.registering_users))

reduce-Agrees :
    (i : UserId) (s : ServerStateInner) (us : UserState)
    → Agrees i s us
    → Agrees i s (aggressively_reduce_timeout us)
unfolding aggressively_reduce_timeout
reduce-Agrees i s (registering st) h = h
reduce-Agrees i s (registered st) h = h
reduce-Agrees i s disconnected h = h

reload-Untouched : {s t : ServerStateInner} (j : UserId) → Reload s t → Untouched j s t
reload-Untouched j r =
    let (p, q, c) = reload-same r in
    record { user = rw p refl; ruser = rw q refl; member = λ d. rw c refl }

module _ (x : External) where
  -- The first lock of a call leaves every session in agreement, also the one that goes on to check.
  lock-AllAgree :
      (w : World)
      → AllAgree w
      → (i : UserId) (st : RegisteringState) {t : ServerStateInner} → w.sessions i ≡ registering st
      → Writes x w.server st t
      → (j : UserId) → Agrees j t (w.sessions j)
  lock-AllAgree w agree i st {t = t} same writes j =
      let here : Agrees i w.server (registering st) = subst (Agrees i w.server) same (agree i) in
      elim (Bool-cases (i == j)) [
        | inl e ↦
            let eq : i ≡ j = ground arith in
            subst (λ k. Agrees k t (w.sessions k)) eq
              (subst (Agrees i t) (sym same) (Writes-Agrees x w.server st writes i here))
        | inr other ↦
            Untouched-Agrees j w.server t (w.sessions j)
              (Writes-Untouched x w.server st writes j
                (λ e. let eq : i ≡ j = sym (e ∙ here.0) in ground arith))
              (agree j)
      ]

  WorldStep-AllAgree : {w u : World} → WorldStep x w u → IsValid w.server → AllAgree w → AllAgree u
  WorldStep-AllAgree (connect {w = w} i mailbox now free) v agree =
      replied-AllAgree w agree i _ _ (connect-Agrees w.server i mailbox now)
        (λ j _. connect-Untouched w.server i mailbox now j)
  WorldStep-AllAgree (receive {w = w} i now m) v agree =
      replied-AllAgree w agree i _ _
        (handle_message-Agrees x w.server v i now (w.sessions i) m (agree i))
        (λ j other _. (session-Untouched x w.server v j (w.sessions i) other).0 now m)
  WorldStep-AllAgree (lock {w = w} {t = t} i m h) v agree =
      let (st, same, writes, whole) = locked-Writes x 0 w.server (w.sessions i) m t h in
      lock-AllAgree w agree i st same writes
  WorldStep-AllAgree (check {w = w} i) v agree =
      replied-AllAgree w agree i _ _ (checked-Agrees w.server v i (w.sessions i) (agree i))
        (λ j other _. checked-Untouched w.server v j (w.sessions i) other)
  WorldStep-AllAgree (tick {w = w} show i now token) v agree =
      replied-AllAgree w agree i _ _
        (check_timeout-Agrees x w.server v show i (w.sessions i) now token (agree i))
        (λ j other _. (session-Untouched x w.server v j (w.sessions i) other).1 show now token)
  WorldStep-AllAgree (reduce {w = w} i) v agree =
      replied-AllAgree w agree i _ _ (reduce-Agrees i w.server (w.sessions i) (agree i))
        (λ j _ _. Untouched-refl j w.server)
  WorldStep-AllAgree (close {w = w} i) v agree =
      replied-AllAgree w agree i _ _ (dispose_state-gone x w.server v i (w.sessions i) (agree i))
        (λ j other _. (session-Untouched x w.server v j (w.sessions i) other).2)
  WorldStep-AllAgree (reload {w = w} {t = t} r) v agree =
      λ j. Untouched-Agrees j w.server t (w.sessions j) (reload-Untouched j r) (agree j)

  WorldStep-Reach :
      {w u : World} → WorldStep x w u → AllAgree w → Reach x w.server → Reach x u.server
  WorldStep-Reach (connect {w = w} i mailbox now free) agree r =
      let gone : Agrees i w.server disconnected = subst (Agrees i w.server) free (agree i) in
      Reach.next r (Step.connect i mailbox now gone.0)
  WorldStep-Reach (receive {w = w} i now m) agree r =
      Reach.next r (Step.receive now (w.sessions i) m)
  WorldStep-Reach (lock {w = w} i m h) agree r = Reach.next r (Step.lock (w.sessions i) m h)
  WorldStep-Reach (check {w = w} i) agree r = Reach.next r (Step.check (w.sessions i))
  WorldStep-Reach (tick {w = w} show i now token) agree r =
      Reach.next r (Step.tick show (w.sessions i) now token)
  WorldStep-Reach (reduce {w = w} i) agree r = r
  WorldStep-Reach (close {w = w} i) agree r = Reach.next r (Step.close (w.sessions i))
  WorldStep-Reach (reload c) agree r = Reach.next r (Step.reload c)

  -- Every state of the server that the sessions can bring it to is one that the steps of the server
  -- reach, and there all sessions agree with it.
  pub WorldReach-Reach : {w : World} → WorldReach x w → Reach x w.server × AllAgree w
  unfolding new get
  WorldReach-Reach (start name config motd password t) =
      (Reach.start name config motd password t, λ i. (refl, refl))
  WorldReach-Reach (next r step) =
      let (reached, agree) = WorldReach-Reach r in
      (WorldStep-Reach step agree reached, WorldStep-AllAgree step (Reach-IsValid x reached) agree)

  -- However many clients connect, send, fall silent and leave, in any order, and whatever is
  -- reloaded: an id is in the map of users if and only if its session is registered, and in the map of
  -- registering users if and only if its session still registers. In particular nobody who is gone
  -- stays in a map.
  pub WorldReach-sessions :
      {w : World}
      → WorldReach x w
      → (i : UserId)
      → ((contains_key i w.server.users ≡ true)
          ↔ ((st : RegisteredState) × (w.sessions i ≡ registered st)))
        × ((contains_key i w.server.registering_users ≡ true)
            ↔ ((st : RegisteringState) × (w.sessions i ≡ registering st)))
  WorldReach-sessions {w = w} r i =
      let (reached, agree) = WorldReach-Reach r in
      sessions_iff w.server (Reach-IsValid x reached) i (w.sessions i) (agree i)
