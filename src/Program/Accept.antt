-- ===== src/Program/Accept.antt =====
-- Accepting connections: the listeners of cirque-server/src/listener.rs and the loop of
-- cirque-server/src/server.rs.
use cirque.Base.{ℕ, Option, none, some, Result, ok, err, ◌>>=◌, if◌then◌else◌}
use cirque.Transport.Limiter.{F64, IpAddr, ConnectionLimiter, validate_at_time}
use cirque.Program.{Failure, Platform}
use cirque.Program.Launch.{Listening, tcp, tls}

-- `TCPConnectingStream` and `TLSConnectingStream`
pub data ConnectingStream (p : Platform) : Type 0 where
  tcp_connecting : p.TcpStream → IpAddr → ConnectingStream p
  tls_connecting : p.TcpStream → IpAddr → p.ServerConfig → ConnectingStream p

-- The two instances of `Stream`.
pub data Stream (p : Platform) : Type 0 where
  tcp_stream : p.TcpStream → Stream p
  tls_stream : p.TlsStream → Stream p

module _ (p : Platform) (at : ℕ) where
  unfoldable pub peer_addr : ConnectingStream p → IpAddr
  peer_addr (tcp_connecting stream addr) = addr
  peer_addr (tls_connecting stream addr acceptor) = addr

  -- `TCPListener::accept`
  unfoldable pub accept_tcp : p.Listener → Result Failure (ConnectingStream p)
  accept_tcp listener = do
    (stream, addr) ← p.accept at listener
    _ ← p.set_nodelay stream
    ok (tcp_connecting stream addr)

  -- `TLSListener::accept`, which leaves the delay of the stream as it is.
  unfoldable pub accept_tls : p.Listener → p.ServerConfig → Result Failure (ConnectingStream p)
  accept_tls listener acceptor = do
    (stream, addr) ← p.accept at listener
    ok (tls_connecting stream addr acceptor)

  -- `Listener::accept`
  unfoldable pub accept : Listening p → Result Failure (ConnectingStream p)
  unfolding accept_tcp accept_tls
  accept (tcp listener) = accept_tcp listener
  accept (tls listener acceptor) = accept_tls listener acceptor

  -- `TLSConnectingStream::handshake`
  unfoldable pub handshake_tls : p.TcpStream → p.ServerConfig → Result Failure (Stream p)
  handshake_tls stream acceptor = do
    stream' ← p.tls_accept at acceptor stream
    ok (tls_stream stream')

  -- `ConnectingStream::handshake`; there is nothing to do without TLS.
  unfoldable pub handshake : ConnectingStream p → Result Failure (Stream p)
  unfolding handshake_tls
  handshake (tcp_connecting stream addr) = ok (tcp_stream stream)
  handshake (tls_connecting stream addr acceptor) = handshake_tls stream acceptor

  -- One round of the loop of `run_server`: the validator afterwards, and the connection whose task is
  -- spawned. The validator is asked at the time `now`, and makes an entry at the time `created`.
  unfoldable pub run_server_round :
      (f : F64)
      → Listening p
      → ConnectionLimiter f
      → ℕ
      → ℕ
      → ConnectionLimiter f × Option (ConnectingStream p)
  unfolding accept peer_addr validate_at_time
  run_server_round f listener validator now created = elim (accept listener) [
    | err e ↦ (validator, none)
    | ok conn ↦
        let (validator', valid) = validate_at_time f validator (peer_addr conn) now created in
        (validator', if valid then some conn else none)
  ]
