-- ===== src/Program.antt =====
-- The program itself: cirque/src/config.rs here, its entry and its reload in the child modules. The
-- file system, the YAML reader, the certificates and the sockets belong to other code, which `Platform`
-- stands for.
pub mod Launch
pub mod Accept
pub mod Run
pub mod Startup
pub mod Reload
pub mod Steps
pub mod Refine
use cirque.Base.{ℕ, Bytes, Option, none, some, List, Result, ok, err, ◌>>=◌}
use cirque.Types.ChannelMode.{ChannelMode}
use cirque.Types.ChannelMode
use cirque.Transport.Limiter.{IpAddr}
use cirque.Timeout.{TimeoutConfig}

abbrev pub PathBuf : Type 0
PathBuf = Bytes

-- `anyhow::Error`, as its text.
abbrev pub Failure : Type 0
Failure = Bytes

pub record TlsConfig : Type 0 where
  pub cert_file_path : PathBuf
  pub private_key_file_path : PathBuf

-- The `TimeoutConfig` of the file, as durations.
pub record Timeouts : Type 0 where
  pub base : ℕ
  pub reduced : ℕ

-- `impl From<&TimeoutConfig> for cirque_core::TimeoutConfig`
abbrev pub from_timeouts : Timeouts → TimeoutConfig
from_timeouts val = record { base_timeout = val.base; reduced_timeout = val.reduced }

pub record Config : Type 0 where
  pub server_name : Bytes
  pub password : Option Bytes
  pub motd : Option Bytes
  pub port : ℕ
  pub address : Bytes
  pub tls_config : Option TlsConfig
  pub default_channel_mode : ChannelMode
  pub timeout : Option Timeouts

-- What the other code does. A number is the moment at which the system is asked.
pub record Platform : Type 1 where
  -- `std::fs::read_to_string`
  pub read_to_string : ℕ → PathBuf → Result Failure Bytes
  -- `serde_yml::from_str`, given what the visitor of the channel mode does with its string.
  pub from_str : (Bytes → Result Failure ChannelMode) → Bytes → Result Failure Config
  -- `File::open` and a reader on the file.
  pub open_file : ℕ → PathBuf → Result Failure Bytes
  -- `rustls_pemfile::certs` and `rustls_pemfile::private_key`
  pub Certificate : Type 0
  pub PrivateKey : Type 0
  pub certs : Bytes → Result Failure (List Certificate)
  pub private_key : Bytes → Result Failure (Option PrivateKey)
  -- `rustls::ServerConfig`, made for no client certificates and these of the server.
  pub ServerConfig : Type 0
  pub with_single_cert : List Certificate → PrivateKey → Result Failure ServerConfig
  -- `std::net::TcpListener` and `tokio::net::TcpListener`
  pub Socket : Type 0
  pub Listener : Type 0
  pub bind : ℕ → Bytes → Result Failure Socket
  pub set_nonblocking : Socket → Result Failure (Unit {0})
  pub from_std : Socket → Result Failure Listener
  -- `tokio::net::TcpStream`, and `tokio_rustls::server::TlsStream` on it
  pub TcpStream : Type 0
  pub TlsStream : Type 0
  pub accept : ℕ → Listener → Result Failure (TcpStream × IpAddr)
  pub set_nodelay : TcpStream → Result Failure (Unit {0})
  -- `TlsAcceptor::accept`
  pub tls_accept : ℕ → ServerConfig → TcpStream → Result Failure TlsStream

-- `Visitor::visit_str` of `deserialize_channel_mode`
unfoldable pub visit_str : Bytes → Result Failure ChannelMode
unfolding ChannelMode.try_from
visit_str v = ChannelMode.try_from v

unfoldable pub load_from_str : Platform → Bytes → Result Failure Config
unfolding visit_str
load_from_str p str = p.from_str visit_str str

module _ (p : Platform) (at : ℕ) where
  unfoldable pub load_from_path : PathBuf → Result Failure Config
  unfolding load_from_str
  load_from_path path = do string ← p.read_to_string at path; load_from_str p string

unfoldable pub timeout_config : Config → Option TimeoutConfig
timeout_config self = elim self.timeout [ none ↦ none | some tc ↦ some (from_timeouts tc) ]
