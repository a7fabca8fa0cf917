-- ===== src/Invariant/World.antt =====
-- The server with all its sessions (cirque-core/src/user_state.rs and cirque-server/src/session.rs):
-- each session holds the state of its own client between two calls, and the calls of different
-- sessions follow each other in any order. A call that takes the lock twice is also two steps, with
-- those of other sessions in between.
use cirque.Base.{ℕ, ◌==◌, if◌then◌else◌, Bytes, Option, some, List, ◌≡◌}
use cirque.Base.Map.{id_eq}
use cirque.Types.User.{UserId, MailboxHandle}
use cirque.Timeout.{TimeoutConfig}
use cirque.Parser.Message.{Message as Parsed}
use cirque.ServerToClient.{WelcomeConfig}
use cirque.UserState.{UserState, disconnected}
use cirque.Server.State.{ServerStateInner, Reply, new}
use cirque.Server.Nickname.{External}
use cirque.Server.Registration.{new_registering_user}
use cirque.Server.Departure.{dispose_state}
use cirque.Session.Locks.{locked, checked}
use cirque.Session.{handle_message, check_timeout, aggressively_reduce_timeout}
use cirque.Invariant.Reach.{Reload}

-- The shared state, and the state of each session; an id that nobody has is `disconnected`.
pub record World : Type 0 where
  pub server : ServerStateInner
  pub sessions : UserId → UserState

-- One session takes the state that a call gave back.
abbrev pub set_session : UserId → UserState → (UserId → UserState) → UserId → UserState
set_session i us sessions j = if i == j then us else sessions j

-- What a session has after a call.
abbrev pub replied : World → UserId → Reply → World
replied w i r = record { server = r.sv; sessions = set_session i r.user_state w.sessions }

module _ (x : External) where
  -- One call of one session, or a reload.
  pub data WorldStep : World → World → Type 0 where
    -- `UserID::generate` gives an id that nobody has.
    connect :
        {w : World} (i : UserId) (mailbox : MailboxHandle) (now : ℕ)
        → w.sessions i ≡ disconnected
        → WorldStep w (replied w i (new_registering_user w.server i mailbox now))
    receive :
        {w : World} (i : UserId) (now : ℕ) (m : Parsed)
        → WorldStep w (replied w i (handle_message x now w.server (w.sessions i) m))
    -- The first lock of PASS, NICK and USER, and the second.
    lock :
        {w : World} {t : ServerStateInner} (i : UserId) (m : Parsed)
        → locked x w.server (w.sessions i) m ≡ some t
        → WorldStep w (record { server = t; sessions = w.sessions })
    check : {w : World} (i : UserId) → WorldStep w (replied w i (checked w.server (w.sessions i)))
    tick :
        {w : World} (show : ℕ → Bytes) (i : UserId) (now : ℕ) (token : Bytes)
        → WorldStep w (replied w i (check_timeout show w.server (w.sessions i) now token))
    -- The session has written a message that is important.
    reduce :
        {w : World} (i : UserId)
        → WorldStep w (record {
          server = w.server;
          sessions = set_session i (aggressively_reduce_timeout (w.sessions i)) w.sessions;
        })
    close :
        {w : World} (i : UserId)
        → WorldStep w (record {
          server = (dispose_state w.server (w.sessions i)).0;
          sessions = set_session i disconnected w.sessions;
        })
    reload :
        {w : World} {t : ServerStateInner}
        → Reload w.server t
        → WorldStep w (record { server = t; sessions = w.sessions })

  -- From a server without clients.
  pub data WorldReach : World → Type 0 where
    start :
        (server_name : Bytes) (welcome_config : WelcomeConfig) (motd : Option (List Bytes))
        (password : Option Bytes) (timeout_config : Option TimeoutConfig)
        → WorldReach (record {
          server = new server_name welcome_config motd password timeout_config;
          sessions = λ i. disconnected;
        })
    next : {w u : World} → WorldReach w → WorldStep w u → WorldReach u
