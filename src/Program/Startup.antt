-- ===== src/Program/Startup.antt =====
-- The state in which `main` of cirque/src/main.rs enters its loop.
use cirque.Base.{
  true, ℕ, [], ◌∷◌, codes, Bytes, none, some, ok, ◌≡◌, sym, inl, inr, arith, Result-cases, ap,
}
use cirque.Types.User.{UserId}
use cirque.Server.State.{
  ServerStateInner, new, set_server_name, set_password, set_motd, set_default_channel_mode,
  set_timeout_config,
}
use cirque.Delivery.{Mailboxes}
use cirque.Transport.Limiter.{F64, ConnectionLimiter}
use cirque.Transport.Limiter
use cirque.Program.{PathBuf, Config, Platform, load_from_path, timeout_config}
use cirque.Program.Launch.{Listening, configure, launch_server, listen, str_lines}
use cirque.Program.Run.{Program, main, initial_state}

-- The server from which `main` launches.
abbrev pub first_server : Config → ServerStateInner
first_server config =
    new (codes "cirque-server") (record { send_isupport = true })
      (elim config.motd [ none ↦ none | some m ↦ some (m ∷ []) ]) config.password
      (timeout_config config)

module _ (p : Platform) (f : F64) (at at_launch : ℕ) (mailboxes : Mailboxes)
    (sockets : UserId → Bytes) (path : PathBuf) where
  -- The program that `main` makes of what its two readings of the file gave.
  abbrev pub program_of : Config → Config → Listening p → Program p f
  program_of first config listener = record {
    config_path = path;
    system = record {
      server = configure config (first_server first);
      sessions = λ i. none;
      mailboxes = mailboxes;
      sockets = sockets;
    };
    server_handle = some (listener, Limiter.new f);
    connecting = [];
  }

  pub record Started (a : Program p f) : Type 0 where
    pub first : Config
    pub config : Config
    pub listener : Listening p
    pub read_first : load_from_path p at path ≡ ok first
    pub read : load_from_path p at_launch path ≡ ok config
    pub listens : listen p at_launch config ≡ ok listener
    pub program : program_of first config listener ≡ a

  pub main-Started :
      (a : Program p f) → main p f at at_launch mailboxes sockets (some path) ≡ ok a → Started a
  unfolding main initial_state launch_server
  main-Started a h = elim (Result-cases (load_from_path p at path)) [
    | inr (e, k) ↦ absurd (ground arith)
    | inl (first, k) ↦ elim (Result-cases (load_from_path p at_launch path)) [
      | inr (e, l) ↦ absurd (ground arith)
      | inl (config, l) ↦ elim (Result-cases (listen p at_launch config)) [
        | inr (e, m) ↦ absurd (ground arith)
        | inl (listener, m) ↦ record {
          first = first;
          config = config;
          listener = listener;
          read_first = k;
          read = l;
          listens = m;
          program = ground arith;
        }
      ]
    ]
  ]

  -- The server that a configuration asks for, without clients.
  abbrev pub server_of : Config → ServerStateInner
  server_of config = record {
    users = [];
    registering_users = [];
    channels = [];
    server_name = config.server_name;
    welcome_config = record { send_isupport = true };
    password = config.password;
    motd = elim config.motd [ none ↦ none | some m ↦ some (str_lines m) ];
    default_channel_mode = config.default_channel_mode;
    message_context = record { server_name = config.server_name };
    messages_per_second_limit = 10;
    timeout_config = timeout_config config;
  }

  -- A program that has started serves exactly what the file said when it was launched: nothing of the
  -- name and the message of the day that the state was made with is left, and nothing of an earlier
  -- reading of the file. It listens, and nobody is connected.
  pub main-config :
      (a : Program p f)
      → main p f at at_launch mailboxes sockets (some path) ≡ ok a
      → (config : Config) × (load_from_path p at_launch path ≡ ok config)
        × (a.system.server ≡ server_of config)
        × (listener : Listening p) × (listen p at_launch config ≡ ok listener)
        × (a.server_handle ≡ some (listener, Limiter.new f))
        × ((i : UserId) → a.system.sessions i ≡ none)
  unfolding configure set_server_name set_password set_motd set_default_channel_mode
      set_timeout_config new
  main-config a h =
      let st = main-Started a h in
      (
        st.config,
        st.read,
        ap (λ b. b.system.server) (sym st.program),
        st.listener,
        st.listens,
        ap (λ b. b.server_handle) (sym st.program),
        λ i. ap (λ b. b.system.sessions i) (sym st.program),
      )
