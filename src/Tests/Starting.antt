-- ===== src/Tests/Starting.antt =====
-- The program started, at a platform whose configuration file cannot be read at the moment 1.
use cirque.Base.{true, false, ◌==◌, if◌then◌else◌, codes, none, some, [], ok, err, ◌>>=◌, ◌≡◌, refl}
use cirque.Types.ChannelMode.{ChannelMode}
use cirque.Types.ChannelMode
use cirque.MessageWriter
use cirque.Program.{Config, Platform, load_from_path, load_from_str, visit_str}
use cirque.Program.Launch.{Listening, bind_tcp_socket, try_new_tcp, listen, launch_server}
use cirque.Program.Run.{Program, main, initial_state, reload}
use cirque.Program.Startup.{main-config, program_of}
use cirque.Program.Reload.{Spared, reload-reload, reload-error}
use cirque.Tests.Limiting.{thousandths}

abbrev written : ChannelMode → Config
written mode = record {
  server_name = codes "cirque";
  password = none;
  motd = some (codes "hello");
  port = 6667;
  address = codes "localhost";
  tls_config = none;
  default_channel_mode = mode;
  timeout = none;
}

abbrev machine : Platform
machine = record {
  read_to_string = λ at path. if at == 1 then err (codes "gone") else ok (codes "nt");
  from_str = λ visit text. visit text >>= λ mode. ok (written mode);
  open_file = λ at path. err (codes "gone");
  Certificate = Unit;
  PrivateKey = Unit;
  certs = λ file. ok [];
  private_key = λ file. ok none;
  ServerConfig = Unit;
  with_single_cert = λ certs key. ok tt;
  Socket = Unit;
  Listener = Unit;
  bind = λ at addr. ok tt;
  set_nonblocking = λ socket. ok tt;
  from_std = λ socket. ok tt;
  TcpStream = Unit;
  TlsStream = Unit;
  accept = λ at listener. ok (tt, 7);
  set_nodelay = λ stream. ok tt;
  tls_accept = λ at config stream. ok tt;
}

abbrev config : Config
config =
    written
      (record { secret = false; topic_protected = true; moderated = false; no_external = true })

abbrev running : Program machine thousandths
running =
    program_of machine thousandths 0 2 (λ i. MessageWriter.new 0) (λ i. []) (codes "config.yml")
      config config (Listening.tcp tt)

read_again : load_from_path machine 2 (codes "config.yml") ≡ ok config
unfolding load_from_path load_from_str visit_str ChannelMode.try_from ChannelMode.try_fold
    ChannelMode.try_mode_char
read_again = refl

running-main :
    main machine thousandths 0 2 (λ i. MessageWriter.new 0) (λ i. []) (some (codes "config.yml"))
    ≡ ok running
unfolding main initial_state launch_server load_from_path load_from_str visit_str listen try_new_tcp
    bind_tcp_socket ChannelMode.try_from
running-main = refl

main-config_example : running.system.sessions 5 ≡ none
main-config_example =
    (main-config machine thousandths 0 2 (λ i. MessageWriter.new 0) (λ i. []) (codes "config.yml")
        running running-main).6
      5

-- The reload at 1, which cannot read the file.
reload-error_example : Spared machine thousandths running (reload machine thousandths 1 running)
reload-error_example = (reload-error machine thousandths 1 running).0

reload-reload_example :
    reload machine thousandths 2 (reload machine thousandths 1 running)
    ≡ reload machine thousandths 2 running
reload-reload_example = reload-reload machine thousandths 1 2 running config read_again
