-- ===== src/Program/Steps.antt =====
-- The whole program, from its start on: connections that are accepted and shake hands, the tasks of
-- the clients, and reloads, in any order.
use cirque.Base.{ℕ, true, Bool, false, Bytes, none, some, List, ◌∷◌, ◌++◌, ok, err, ◌≡◌}
use cirque.Types.User.{UserId}
use cirque.Server.Nickname.{External}
use cirque.Delivery.{Mailboxes}
use cirque.Transport.Limiter.{F64}
use cirque.System.{start, timer_starts}
use cirque.Server.State.{ServerStateInner}
use cirque.Program.Launch.{Setting, listen}
use cirque.System.Step.{System, SystemStep, taken, opened}
use cirque.System.Step
use cirque.Program.{PathBuf, Failure, Platform, Config, load_from_path}
use cirque.Program.Accept.{ConnectingStream, Stream, handshake}
use cirque.Program.Run.{Program, main, reload, serve, handle_of}

module _ (x : External) where
  -- A step of the task of a client that is connected.
  abbrev pub is_of_task : {s t : System} → SystemStep x s t → Bool
  is_of_task (Step.accept i now free timed) = false
  is_of_task (Step.reload r) = false
  is_of_task _ = true

  module _ (p : Platform) (f : F64) where
    pub data ProgramStep : Program p f → Program p f → Type 0 where
      task :
          {a : Program p f} {t : System} (step : SystemStep x a.system t)
          → is_of_task step ≡ true
          → ProgramStep a (record a { system = t })
      serve_one :
          {a : Program p f} (at now created : ℕ) → ProgramStep a (serve p f at now created a)
      -- `handle_client`: the handshake of one of the connections ends, and the session begins.
      shake :
          {a : Program p f} (before later : List (ConnectingStream p)) (conn : ConnectingStream p)
          (at : ℕ) (stream : Stream p) (i : UserId) (now : ℕ)
          → a.connecting ≡ before ++ (conn ∷ later)
          → handshake p at conn ≡ ok stream
          → a.system.sessions i ≡ none
          → timer_starts a.system.server.timeout_config ≡ true
          → ProgramStep a (record a {
            system = taken (opened a.system i) i (start a.system.server i i now);
            connecting = before ++ later;
          })
      shake_fails :
          {a : Program p f} (before later : List (ConnectingStream p)) (conn : ConnectingStream p)
          (at : ℕ) (e : Failure)
          → a.connecting ≡ before ++ (conn ∷ later)
          → handshake p at conn ≡ err e
          → ProgramStep a (record a { connecting = before ++ later })
      -- The timer of the session panics, which ends its task.
      shake_panics :
          {a : Program p f} (before later : List (ConnectingStream p)) (conn : ConnectingStream p)
          (at : ℕ) (stream : Stream p)
          → a.connecting ≡ before ++ (conn ∷ later)
          → handshake p at conn ≡ ok stream
          → timer_starts a.system.server.timeout_config ≡ false
          → ProgramStep a (record a { connecting = before ++ later })
      -- A SIGHUP, if no session runs in the meantime.
      hangup : {a : Program p f} (at : ℕ) → ProgramStep a (reload p f at a)
      -- A SIGHUP piece by piece, with steps of the sessions in between: the accepting task is aborted,
      -- a setter is called with what the file has, and the listener is made.
      aborted : {a : Program p f} → ProgramStep a (record a { server_handle = none })
      setting :
          {a : Program p f} {t : ServerStateInner} (at : ℕ) (config : Config)
          → load_from_path p at a.config_path ≡ ok config
          → Setting config a.system.server t
          → ProgramStep a (record a { system = record a.system { server = t } })
      relaunched :
          {a : Program p f} (at : ℕ) (config : Config)
          → load_from_path p at a.config_path ≡ ok config
          → ProgramStep a (record a { server_handle = handle_of p f (listen p at config) })

    pub data ProgramReach : Program p f → Type 0 where
      started :
          {a : Program p f} (at at_launch : ℕ) (mailboxes : Mailboxes) (sockets : UserId → Bytes)
          (config_path : PathBuf)
          → main p f at at_launch mailboxes sockets (some config_path) ≡ ok a
          → ProgramReach a
      goes_on : {a b : Program p f} → ProgramReach a → ProgramStep a b → ProgramReach b
