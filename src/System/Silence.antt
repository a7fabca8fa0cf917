-- ===== src/System/Silence.antt =====
-- What becomes of the session of a client that has timed out (cirque-server/src/session.rs).
use mathlib.Core.Path.{subst}
use cirque.Base.{
  Option-cases, inl, inr, ℕ, true, Bytes, Option, none, some, ◌≡◌, refl, ap, ◌∙◌, arith,
}
use cirque.Base.Map.{get, id_eq, channel_id_eq}
use cirque.Types.User.{UserId}
use cirque.Timeout.{PingState, timeout, check_status}
use cirque.UserState.{UserState, RegisteringState, registering, registered, disconnected, is_alive}
use cirque.Server.State.{ServerStateInner}
use cirque.Server.Nickname.{External}
use cirque.Server.Registration.{ruser_disconnects_voluntarily}
use cirque.Server.Departure.{user_disconnects_voluntarily}
use cirque.Session.{check_timeout}
use cirque.Invariant.Agreement.{Agrees}
use cirque.Invariant.Sessions.{check_timeout-Agrees}
use cirque.Invariant.Reach.{Reach-IsValid}
use cirque.Invariant.Registry.{WorldReach-Reach}
use cirque.System.{selecting, left, on_tick}
use cirque.Session.Task.{Task}
use cirque.System.Step.{System, SystemStep, SystemReach, after, timer, taken, moved}
use cirque.System.Refine.{world, state_of, SystemReach-world}
use cirque.System.Aside.{set_at-same}
use cirque.System.Mailboxes.{SystemReach-Coherent}
use cirque.System.Ending.{mover, gone_task, gone-leaves}
use cirque.Parser.Stream.{StreamParser}
use cirque.Server.Valid.{IsValid}
use cirque.Server.Presence.{mode_in}

-- The state of a client's pings.
abbrev pub pings_of : UserState → Option PingState
pings_of (registering st) = some st.ping_state
pings_of (registered st) = some st.ping_state
pings_of disconnected = none

drop-disconnected :
    (sv : ServerStateInner) (st : RegisteringState) (reason : Option Bytes)
    → (ruser_disconnects_voluntarily sv st reason).user_state ≡ disconnected
unfolding ruser_disconnects_voluntarily
drop-disconnected sv st reason = ground arith

timed_out :
    (show : ℕ → Bytes) (sv : ServerStateInner) (us : UserState) (now : ℕ) (token : Bytes)
    (p : PingState) (d : ℕ)
    → pings_of us ≡ some p
    → check_status p now ≡ timeout d
    → (check_timeout show sv us now token).user_state ≡ disconnected
unfolding check_timeout user_disconnects_voluntarily
timed_out show sv (registering st) now token p d same h =
    let e : check_status st.ping_state now ≡ timeout d =
      subst (λ q. check_status q now ≡ timeout d) (cc) h in
    rw (e, check_timeout) (drop-disconnected sv st (some (show d)))
timed_out show sv (registered st) now token p d same h =
    let e : check_status st.ping_state now ≡ timeout d =
      subst (λ q. check_status q now ≡ timeout d) (cc) h in
    rw (e, check_timeout) refl
timed_out show sv disconnected now token p d same h = cc

alive-pings : (us : UserState) (p : PingState) → pings_of us ≡ some p → is_alive us ≡ true
unfolding is_alive
alive-pings (registering st) p h = refl
alive-pings (registered st) p h = refl
alive-pings disconnected p h = cc

-- Who is no user is in no channel.
no_member :
    {s : ServerStateInner}
    → IsValid s
    → (i : UserId) → get i s.users ≡ none
    → (c : Bytes) → mode_in s c i ≡ none
no_member {s = s} v i h c = elim (Option-cases (get c s.channels)) [
  | inl e ↦ ground arith
  | inr (ch, e) ↦
      let valid = v.channels_valid c ch e in
      elim (Option-cases (get i ch.users)) [
        | inl k ↦ ground arith
        | inr (m, k) ↦ absurd (ground (arith, valid.known i))
      ]
]

-- The client has timed out at a tick of its timer: it is gone, and all that its task can do is leave
-- its loop.
pub record TimedOut (x : External) (t : System) (i : UserId) (parser : StreamParser) : Type 0 where
  pub session : t.sessions i ≡ some (record { task = gone_task parser; phase = selecting })
  pub user : get i t.server.users ≡ none
  pub ruser : get i t.server.registering_users ≡ none
  pub member : (c : Bytes) → mode_in t.server c i ≡ none
  pub next :
      {u : System} (step : SystemStep x t u)
      → mover step ≡ some i
      → u ≡ moved t i (left (gone_task parser))

module _ (x : External) where
  -- In any state that the program can reach: a tick of the timer at which the ping of the client has
  -- timed out takes the client out of the server. Its id is in neither map and in no channel, its
  -- session is at its end, and the next step of its own task can only be to leave its loop.
  pub silent-TimedOut :
      (s : System)
      → SystemReach x s
      → (i : UserId) (task : Task) (p : PingState) (show : ℕ → Bytes) (now d : ℕ) (token : Bytes)
      → s.sessions i ≡ some (record { task = task; phase = selecting })
      → pings_of task.state ≡ some p
      → check_status p now ≡ timeout d
      → TimedOut x (taken s i (on_tick show s.server task now token)) i task.stream_parser
  unfolding taken on_tick world
  silent-TimedOut s r i task p show now d token h pings status =
      let (reached, agree) = WorldReach-Reach x (SystemReach-world x r) in
      let out = timed_out show s.server task.state now token p d pings status in
      let before : Agrees i s.server task.state =
        subst (Agrees i s.server) (ap state_of h) (agree i) in
      let behind =
        check_timeout-Agrees x s.server (Reach-IsValid x reached) show i task.state now token
          before in
      let gone : Agrees i (check_timeout show s.server task.state now token).sv disconnected =
        subst (Agrees i (check_timeout show s.server task.state now token).sv) out behind in
      let session =
        set_at-same i (some (on_tick show s.server task now token).session) s.sessions
        ∙ ap
            (λ us. some (record {
              task = record { stream_parser = task.stream_parser; state = us };
              phase = selecting;
            }))
            out in
      let step = timer show i task now token h (alive-pings task.state p pings) in
      let valid = (SystemReach-Coherent x (after r step)).valid in
      record {
        session = session;
        user = gone.0;
        ruser = gone.1;
        member = no_member valid i gone.0;
        next = λ next own. gone-leaves x next i task.stream_parser session own;
      }
