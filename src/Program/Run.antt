-- ===== src/Program/Run.antt =====
-- cirque/src/main.rs: the start of the program, its reload, and the program as a whole.
use cirque.Base.{
  ℕ, true, Bytes, codes, Option, none, some, List, [], ◌∷◌, ◌++◌, Result, ok, err, ◌>>=◌,
}
use cirque.Types.User.{UserId}
use cirque.Server.State.{ServerStateInner, new}
use cirque.Delivery.{Mailboxes}
use cirque.Transport.Limiter.{F64, ConnectionLimiter}
use cirque.Transport.Limiter
use cirque.System.Step.{System}
use cirque.Program.{PathBuf, Failure, Platform, load_from_path, timeout_config}
use cirque.Program.Launch.{Listening, launch_server}
use cirque.Program.Accept.{ConnectingStream, run_server_round}

module _ (p : Platform) (f : F64) where
  -- The program: the server with its sessions, the task that accepts connections (none where the handle
  -- is pending forever), and the tasks that shake hands.
  pub record Program : Type 0 where
    pub config_path : PathBuf
    pub system : System
    pub server_handle : Option (Listening p × ConnectionLimiter f)
    pub connecting : List (ConnectingStream p)

  -- What a launch leaves of the accepting task.
  abbrev pub handle_of : Result Failure (Listening p) → Option (Listening p × ConnectionLimiter f)
  handle_of (ok listener) = some (listener, Limiter.new f)
  handle_of (err e) = none

  -- The state that `main` makes before the first launch.
  unfoldable pub initial_state : ℕ → PathBuf → Result Failure ServerStateInner
  unfolding load_from_path new timeout_config
  initial_state at config_path = do
    config ← load_from_path p at config_path
    let motd : Option (List Bytes) = elim config.motd [ none ↦ none | some m ↦ some (m ∷ []) ]
    ok (
        new (codes "cirque-server") (record { send_isupport = true }) motd config.password
          (timeout_config config))

  -- `main` up to its loop: the file is read at `at`, and again by the launch.
  unfoldable pub main :
      ℕ → ℕ → Mailboxes → (UserId → Bytes) → Option PathBuf → Result Failure Program
  unfolding initial_state launch_server
  main at at_launch mailboxes sockets none =
      err (codes "missing <config_path> parameter. Usage: cirque <config_path>")
  main at at_launch mailboxes sockets (some config_path) = do
    server_state ← initial_state at config_path
    let (server, launched) = launch_server p at_launch config_path server_state
    listener ← launched
    ok (record {
      config_path = config_path;
      system = record {
        server = server;
        sessions = λ i. none;
        mailboxes = mailboxes;
        sockets = sockets;
      };
      server_handle = handle_of (ok listener);
      connecting = [];
    })

  -- A SIGHUP: the accepting task is aborted, and the server launched again.
  unfoldable pub reload : ℕ → Program → Program
  unfolding launch_server
  reload at self =
      let (server, launched) = launch_server p at self.config_path self.system.server in
      record {
        config_path = self.config_path;
        system = record self.system { server = server };
        server_handle = handle_of launched;
        connecting = self.connecting;
      }

  -- One round of `run_server`.
  unfoldable pub serve : ℕ → ℕ → ℕ → Program → Program
  unfolding run_server_round
  serve at now created self = elim self.server_handle [
    | none ↦ self
    | some (listener, validator) ↦
        let (validator', conn) = run_server_round p at f listener validator now created in
        record self {
          server_handle = some (listener, validator');
          connecting = elim conn [ none ↦ self.connecting | some c ↦ self.connecting ++ (c ∷ []) ];
        }
  ]
