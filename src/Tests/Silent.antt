-- ===== src/Tests/Silent.antt =====
-- A client that connects, is pinged and does not answer.
use cirque.Base.{true, false, codes, none, some, [], ◌∷◌, ◌≡◌, refl}
use cirque.Base.Map.{get, insert, id_eq}
use cirque.Timeout.{TimeoutConfig, timeout, on_send_ping, check_status}
use cirque.Timeout
use cirque.UserState.{registering, disconnected}
use cirque.UserState
use cirque.MessageWriter
use cirque.Parser.Stream.{default}
use cirque.Session.Task.{Task}
use cirque.Server.State
use cirque.Server.Registration.{new_registering_user, send_ping_to_ruser}
use cirque.Session.{check_timeout}
use cirque.System.{selecting, start, timer_starts, on_tick}
use cirque.System.Step.{System, SystemReach, taken, opened, boot, after, accept, timer}
use cirque.System.Silence.{TimedOut, silent-TimedOut}
use cirque.Tests.Fixtures.{plain}

abbrev config : TimeoutConfig
config = record { base_timeout = 10; reduced_timeout = 4 }

abbrev booted : System
booted = record {
  server = State.new (codes "cirque") (record { send_isupport = true }) none none (some config);
  sessions = λ i. none;
  mailboxes = λ i. MessageWriter.new 0;
  sockets = λ i. [];
}

abbrev accepted : System
accepted = taken (opened booted 1) 1 (start booted.server 1 1 0)

abbrev fresh_task : Task
fresh_task = record {
  stream_parser = default;
  state = registering (UserState.new 1 0 (some config));
}

abbrev pinged_task : Task
pinged_task = record {
  stream_parser = default;
  state = registering (record {
    user_id = 1;
    ping_state = on_send_ping (Timeout.new 0 (some config)) (codes "t") 11;
  });
}

abbrev pinged : System
pinged = taken accepted 1 (on_tick (λ d. []) accepted.server fresh_task 11 (codes "t"))

pinged-SystemReach : SystemReach plain pinged
unfolding taken opened start UserState.new UserState.is_alive State.new new_registering_user
    timer_starts
pinged-SystemReach =
    after
      (after
        (boot (codes "cirque") (record { send_isupport = true }) none none (some config)
          (λ i. MessageWriter.new 0) (λ i. []))
        (accept 1 0 refl refl))
      (timer (λ d. []) 1 fresh_task 11 (codes "t") refl refl)

pinged_session : pinged.sessions 1 ≡ some (record { task = pinged_task; phase = selecting })
unfolding taken opened start on_tick UserState.new State.new new_registering_user check_timeout
    check_status send_ping_to_ruser Timeout.new get insert
pinged_session = refl

-- The ping of 11 is not answered by 40.
silent-TimedOut_example :
    TimedOut plain
      (taken pinged 1 (on_tick (λ d. []) pinged.server pinged_task 40 (codes "u")))
      1
      default
unfolding on_send_ping check_status Timeout.new
silent-TimedOut_example =
    silent-TimedOut plain pinged pinged-SystemReach 1 pinged_task
      (on_send_ping (Timeout.new 0 (some config)) (codes "t") 11) (λ d. []) 40 29 (codes "u")
      pinged_session refl refl

-- A client that is gone, with a message in its mailbox.
abbrev quitting : System
quitting = record {
  server = booted.server;
  sessions = λ i. some (record {
    task = record { stream_parser = default; state = disconnected };
    phase = selecting;
  });
  mailboxes = λ i. record {
    capacity = 128;
    queue = record { bytes = codes "ERROR :bye"; is_important = false } ∷ [];
    is_closed = false;
  };
  sockets = λ i. [];
}
