-- ===== src/Tests/Conversing.antt =====
-- Al writes to the channel #a, which Bo reads.
use cirque.Base.{
  true, codes, ℕ, Bytes, none, some, [], ◌∷◌, ◌++◌, ◌≡◌, ◌==◌, if◌then◌else◌, refl, arith,
  eq_ignore_ascii_case, to_ascii_lowercase,
}
use cirque.Base.Map.{get, get_key_value, id_eq, channel_id_eq}
use cirque.Base.Utf8.{is_utf8}
use cirque.Types.Channel.{ensure_user_can_send_message}
use cirque.UserState.{registered}
use cirque.Timeout
use cirque.MessageWriter
use cirque.Parser.Stream.{consume_line}
use cirque.Parser.RoundTrip.{print_message}
use cirque.Session.Task.{Task}
use cirque.Session.PrivateMessage.{privmsg_line}
use cirque.System.{reading, selecting, on_next}
use cirque.System.Step.{System, taken}
use cirque.System.Mailboxes.{Coherent}
use cirque.System.Conversation.{Says, privmsg-conversation}
use cirque.Tests.Fixtures.{plain, house, house-IsValid, al, channel_a}
use cirque.Tests.Together.{al_state}

-- The task of Al has read a whole line, and the others have read nothing.
abbrev task_with : Bytes → ℕ → Task
task_with buffer i = record {
  stream_parser = record { buffer = buffer; capacity = 4096 };
  state = registered (record { user_id = i; ping_state = Timeout.new 0 none });
}

abbrev al_buffer : Bytes
al_buffer = privmsg_line (codes "#A") (codes "hi") ++ (b'\n' ∷ [])

abbrev al_task : Task
al_task = task_with al_buffer 1

abbrev office : System
office = record {
  server = house;
  sessions = λ i. some (record {
    task = task_with (if i == 1 then al_buffer else []) i;
    phase = if i == 1 then reading else selecting;
  });
  mailboxes = λ i. MessageWriter.new 128;
  sockets = λ i. [];
}

office-Coherent : Coherent office
unfolding get MessageWriter.new
office-Coherent = record {
  valid = house-IsValid;
  own = record { user = λ i u e. ground arith; ruser = λ i u e. ground arith };
  served = λ i u e. (_, refl, refl, refl);
}

al-Says :
    Says plain 7 1 al_task al_state al
      (codes "#A")
      (codes "#a")
      (codes "hi")
      (b'\n' ∷ [])
      channel_a
      office
unfolding get get_key_value eq_ignore_ascii_case to_ascii_lowercase ensure_user_can_send_message
    is_utf8 consume_line print_message
al-Says = record {
  session = refl;
  line = refl;
  middle = (refl, (refl, (refl, tt)));
  text = refl;
  state = refl;
  author = refl;
  full = refl;
  channel = refl;
  allowed = refl;
}

-- Bo has the message.
privmsg-conversation_example :
    (taken office 1 (on_next plain 7 house al_task)).mailboxes 2 ≡ record (MessageWriter.new 128) {
      queue =
          record {
            bytes = codes ":al!al@hidden PRIVMSG #a :hi" ++ (b'\r' ∷ b'\n' ∷ []);
            is_important = true;
          }
          ∷ [];
    }
unfolding get MessageWriter.new
privmsg-conversation_example =
    privmsg-conversation plain 7 1 al_task al_state al (codes "#A") (codes "#a") (codes "hi")
      (b'\n' ∷ []) channel_a office office-Coherent al-Says 2 (omega arith) (omega arith)
