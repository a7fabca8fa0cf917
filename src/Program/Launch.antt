-- ===== src/Program/Launch.antt =====
-- `launch_server` of cirque/src/main.rs, and the listeners that it makes
-- (cirque-server/src/listener.rs).
use cirque.Base.{
  ℕ, Bytes, codes, ◌==◌, if◌then◌else◌, Option, none, some, List, [], ◌∷◌, ◌++◌, map, Result, ok,
  err, ◌>>=◌, ok_or,
}
use cirque.ServerToClient.Decimal.{to_string}
use cirque.Server.State.{
  ServerStateInner, set_server_name, set_password, set_motd, set_default_channel_mode,
  set_timeout_config,
}
use cirque.Program.{PathBuf, Failure, TlsConfig, Config, Platform, load_from_path, timeout_config}

-- `str::split_inclusive('\n')`
unfoldable pub split_inclusive : Bytes → List Bytes
split_inclusive [] = []
split_inclusive (c ∷ cs) =
    let rest = split_inclusive cs in
    if c == b'\n' then (c ∷ []) ∷ rest else elim rest [ [] ↦ (c ∷ []) ∷ [] | l ∷ ls ↦ (c ∷ l) ∷ ls ]

-- `str::strip_suffix` of one character
unfoldable pub strip_suffix : ℕ → Bytes → Option Bytes
strip_suffix end [] = none
strip_suffix end (c ∷ []) = if c == end then some [] else none
strip_suffix end (c ∷ d ∷ cs) =
    let rest = strip_suffix end (d ∷ cs) in elim rest [ none ↦ none | some l ↦ some (c ∷ l) ]

unfoldable pub strip_end : Bytes → Bytes
unfolding strip_suffix
strip_end line = elim (strip_suffix b'\n' line) [
  | none ↦ line
  | some l ↦ elim (strip_suffix b'\r' l) [ none ↦ l | some l' ↦ l' ]
]

-- `str::lines`
unfoldable pub str_lines : Bytes → List Bytes
unfolding split_inclusive strip_end
str_lines text = map strip_end (split_inclusive text)

-- The setters that `launch_server` calls, in their order.
unfoldable pub configure : Config → ServerStateInner → ServerStateInner
unfolding set_server_name set_password set_motd set_default_channel_mode set_timeout_config
    str_lines timeout_config
configure config server_state =
    let named = set_server_name server_state config.server_name in
    let protected = set_password named config.password in
    let motd : Option (List Bytes) = elim config.motd [
      | none ↦ none
      | some m ↦ some (str_lines m)
    ] in
    let greeting = set_motd protected motd in
    let moded = set_default_channel_mode greeting config.default_channel_mode in
    set_timeout_config moded (timeout_config config)

-- One of the setters of `launch_server`, each of which takes the lock for itself.
pub data Setting (config : Config) : ServerStateInner → ServerStateInner → Type 0 where
  name : {s : ServerStateInner} → Setting config s (set_server_name s config.server_name)
  password : {s : ServerStateInner} → Setting config s (set_password s config.password)
  motd :
      {s : ServerStateInner}
      → Setting config s
          (set_motd s (elim config.motd [ none ↦ none | some m ↦ some (str_lines m) ]))
  mode :
      {s : ServerStateInner}
      → Setting config s (set_default_channel_mode s config.default_channel_mode)
  timeouts :
      {s : ServerStateInner} → Setting config s (set_timeout_config s (timeout_config config))

pub data Listening (p : Platform) : Type 0 where
  tcp : p.Listener → Listening p
  tls : p.Listener → p.ServerConfig → Listening p

-- `format!("{address}:{port}")`
abbrev socket_addr : Bytes → ℕ → Bytes
socket_addr address port = address ++ (b':' ∷ to_string port)

module _ (p : Platform) (at : ℕ) where
  unfoldable pub bind_tcp_socket : Bytes → Result Failure p.Listener
  bind_tcp_socket addr = do
    listener ← p.bind at addr
    _ ← p.set_nonblocking listener
    p.from_std listener

  -- `TCPListener::try_new`
  unfoldable pub try_new_tcp : Bytes → ℕ → Result Failure (Listening p)
  unfolding bind_tcp_socket
  try_new_tcp address port = do
    listener ← bind_tcp_socket (socket_addr address port)
    ok (tcp listener)

  -- `TLSListener::try_new`
  unfoldable pub try_new_tls :
      Bytes → ℕ → List p.Certificate → p.PrivateKey → Result Failure (Listening p)
  unfolding bind_tcp_socket
  try_new_tls address port certs private_key = do
    config ← p.with_single_cert certs private_key
    listener ← bind_tcp_socket (socket_addr address port)
    ok (tls listener config)

  -- The certificates and the key of `launch_server`.
  unfoldable pub load_tls : Config → TlsConfig → Result Failure (Listening p)
  unfolding try_new_tls
  load_tls config tls_config = do
    cert_file ← p.open_file at tls_config.cert_file_path
    certs ← p.certs cert_file
    key_file ← p.open_file at tls_config.private_key_file_path
    found ← p.private_key key_file
    private_key ← ok_or found (codes "cannot load private key")
    try_new_tls config.address config.port certs private_key

  unfoldable pub listen : Config → Result Failure (Listening p)
  unfolding try_new_tcp load_tls
  listen config = elim config.tls_config [
    | some tls_config ↦ load_tls config tls_config
    | none ↦ try_new_tcp config.address config.port
  ]

  -- The state that all clients share, and what the server listens with.
  unfoldable pub launch_server :
      PathBuf → ServerStateInner → ServerStateInner × Result Failure (Listening p)
  unfolding configure listen load_from_path
  launch_server config_path server_state = elim (load_from_path p at config_path) [
    | err e ↦ (server_state, err e)
    | ok config ↦ (configure config server_state, listen config)
  ]
