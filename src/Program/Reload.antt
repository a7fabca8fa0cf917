-- ===== src/Program/Reload.antt =====
-- The reload of cirque/src/main.rs, on all its branches.
use cirque.Base.{ℕ, ◌⊎◌, none, some, ok, err, ◌≡◌, refl, sym, ap, ◌∙◌, inl, inr, Result-cases}
use cirque.Server.State.{
  ServerStateInner, set_server_name, set_password, set_motd, set_default_channel_mode,
  set_timeout_config,
}
use cirque.Transport.Limiter.{F64}
use cirque.Transport.Limiter
use cirque.Program.{PathBuf, Failure, Config, Platform, load_from_path, timeout_config}
use cirque.Program.Launch.{Listening, configure, launch_server, listen}
use cirque.Program.Run.{Program, reload, handle_of}

-- The settings of the last configuration are all that counts.
configure-configure :
    (a b : Config) (s : ServerStateInner) → configure b (configure a s) ≡ configure b s
unfolding configure set_server_name set_password set_motd set_default_channel_mode
    set_timeout_config
configure-configure a b s = refl

module _ (p : Platform) (f : F64) where
  launch_server-err :
      (at : ℕ) (path : PathBuf) (e : Failure) (s : ServerStateInner)
      → load_from_path p at path ≡ err e
      → launch_server p at path s ≡ (s, err e)
  unfolding launch_server
  launch_server-err at path e s h = rw (h, launch_server) refl

  launch_server-ok :
      (at : ℕ) (path : PathBuf) (config : Config) (s : ServerStateInner)
      → load_from_path p at path ≡ ok config
      → launch_server p at path s ≡ (configure config s, listen p at config)
  unfolding launch_server
  launch_server-ok at path config s h = rw (h, launch_server) refl

  -- A launch that reads the file forgets what an earlier launch has set.
  launch_server-again :
      (earlier later : ℕ) (path : PathBuf) (config : Config) (s : ServerStateInner)
      → load_from_path p later path ≡ ok config
      → launch_server p later path (launch_server p earlier path s).0 ≡ launch_server p later path s
  launch_server-again earlier later path config s h =
      elim (Result-cases (load_from_path p earlier path)) [
        | inl (c, e) ↦
            let again = configure-configure c config s in
            rw (launch_server-ok earlier path c s e) (
              launch_server-ok later path config (configure c s) h
              ∙ ap (λ t. (t, listen p later config)) again
              ∙ sym (launch_server-ok later path config s h))
        | inr (c, e) ↦ rw (launch_server-err earlier path c s e) refl
      ]

  -- A reload that reads the file mends whatever reloads went wrong before it: it leaves the program as
  -- if there had been no reload before, no matter what that one read or where it failed.
  pub reload-reload :
      (earlier later : ℕ) (a : Program p f) (config : Config)
      → load_from_path p later a.config_path ≡ ok config
      → reload p f later (reload p f earlier a) ≡ reload p f later a
  unfolding reload
  reload-reload earlier later a config h =
      rw (launch_server-again earlier later a.config_path config a.system.server h) refl

  -- What a reload leaves as it was: everything of the clients.
  pub record Spared (a b : Program p f) : Type 0 where
    pub users : b.system.server.users ≡ a.system.server.users
    pub registering : b.system.server.registering_users ≡ a.system.server.registering_users
    pub channels : b.system.server.channels ≡ a.system.server.channels
    pub sessions : b.system.sessions ≡ a.system.sessions
    pub mailboxes : b.system.mailboxes ≡ a.system.mailboxes
    pub sockets : b.system.sockets ≡ a.system.sockets
    pub connecting : b.connecting ≡ a.connecting

  reload-err :
      (at : ℕ) (a : Program p f) (e : Failure)
      → load_from_path p at a.config_path ≡ err e
      → reload p f at a ≡ record a { server_handle = none }
  unfolding reload
  reload-err at a e h = rw (launch_server-err at a.config_path e a.system.server h) refl

  -- The program after a reload that has read this configuration.
  abbrev reloaded : ℕ → Program p f → Config → Program p f
  reloaded at a config = record a {
    system = record a.system { server = configure config a.system.server };
    server_handle = handle_of p f (listen p at config);
  }

  reload-ok :
      (at : ℕ) (a : Program p f) (config : Config)
      → load_from_path p at a.config_path ≡ ok config
      → reload p f at a ≡ reloaded at a config
  unfolding reload
  reload-ok at a config h = rw (launch_server-ok at a.config_path config a.system.server h) refl

  -- A reload spares every client, whether it succeeds or not. If the file cannot be read, nothing
  -- changes but that no new clients are accepted. If it can, the server has the name, the password
  -- and the default mode of the file, even if there is an error with the address or the certificates;
  -- and it accepts clients, with a new limiter, if and only if there is none.
  pub reload-error :
      (at : ℕ) (a : Program p f)
      → Spared a (reload p f at a)
        × (((e : Failure) × (load_from_path p at a.config_path ≡ err e)
              × (reload p f at a ≡ record a { server_handle = none }))
            ⊎ ((config : Config) × (load_from_path p at a.config_path ≡ ok config)
                × ((reload p f at a).system.server.server_name ≡ config.server_name)
                × ((reload p f at a).system.server.password ≡ config.password)
                × ((reload p f at a).system.server.default_channel_mode
                    ≡ config.default_channel_mode)
                × ((reload p f at a).system.server.timeout_config ≡ timeout_config config)
                × (((l : Listening p) × (listen p at config ≡ ok l)
                      × ((reload p f at a).server_handle ≡ some (l, Limiter.new f)))
                    ⊎ ((e : Failure) × (listen p at config ≡ err e)
                        × ((reload p f at a).server_handle ≡ none)))))
  unfolding configure set_server_name set_password set_motd set_default_channel_mode
      set_timeout_config
  reload-error at a = elim (Result-cases (load_from_path p at a.config_path)) [
    | inr (e, h) ↦ rw (reload-err at a e h) (
      record {
        users = refl;
        registering = refl;
        channels = refl;
        sessions = refl;
        mailboxes = refl;
        sockets = refl;
        connecting = refl;
      },
      inl (e, h, refl),
    )
    | inl (config, h) ↦ rw (reload-ok at a config h) (
      record {
        users = refl;
        registering = refl;
        channels = refl;
        sessions = refl;
        mailboxes = refl;
        sockets = refl;
        connecting = refl;
      },
      inr (
        config,
        h,
        refl,
        refl,
        refl,
        refl,
        elim (Result-cases (listen p at config)) [
          | inl (l, e) ↦ inl (l, e, rw e refl)
          | inr (l, e) ↦ inr (l, e, rw e refl)
        ],
      ),
    )
  ]
