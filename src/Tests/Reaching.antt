-- ===== src/Tests/Reaching.antt =====
-- The theorems about the reachable states of the server, at a server of two clients.
use cirque.Base.{
  true, Bytes, codes, none, some, List, [], ◌∷◌, ◌≡◌, refl, eq_ignore_ascii_case,
  to_ascii_lowercase,
}
use cirque.Base.Map.{get, id_eq, values, insert, modify}
use cirque.Types.User.{UserId}
use cirque.UserState.{RegisteringState, UserState, registering}
use cirque.UserState
use cirque.Parser.Message.{Message as Parsed}
use cirque.Server.State.{ServerStateInner}
use cirque.Server.State
use cirque.Server.Registration.{new_registering_user, ruser_uses_username, ruser_uses_nick}
use cirque.Server.Nicknames.{nick_at, confusable}
use cirque.Server.Valid.{IsValid}
use cirque.Session.{handle_message}
use cirque.Invariant.Reach.{Reach, start, next, connect, receive, Reach-IsValid, Reach-unique}
use cirque.Tests.Fixtures.{plain}
use cirque.Base.Utf8.{first_char, is_alphanumeric}
use cirque.Server.Nickname.{cure_nickname}

abbrev pub line : Bytes → List Bytes → Parsed
line command parameters = record { command = command; parameters = parameters }

abbrev pub fresh : ServerStateInner
fresh = State.new (codes "cirque") (record { send_isupport = true }) none none none

abbrev connected : ServerStateInner
connected = (new_registering_user fresh 1 11 0).sv

abbrev session_1 : UserState
session_1 = registering (UserState.new 1 0 none)

abbrev pub nick_line : Parsed
nick_line = line (codes "NICK") (codes "al" ∷ [])

abbrev pub user_line : Parsed
user_line = line (codes "USER") (codes "al" ∷ codes "0" ∷ codes "*" ∷ codes "Al" ∷ [])

abbrev named : ServerStateInner
named = (handle_message plain 0 connected session_1 nick_line).sv

abbrev logged_in : ServerStateInner
logged_in = (handle_message plain 0 named session_1 user_line).sv

logged_in-Reach : Reach plain logged_in
unfolding new_registering_user State.new handle_message UserState.new get
logged_in-Reach =
    next
      (next
        (next (start (codes "cirque") (record { send_isupport = true }) none none none)
          (connect 1 11 0 refl))
        (receive 0 session_1 nick_line))
      (receive 0 session_1 user_line)

-- The client is registered now, under its nickname.
logged_in-nick : nick_at logged_in 1 ≡ some (codes "al")
unfolding new_registering_user State.new handle_message UserState.new get nick_at
    eq_ignore_ascii_case ruser_uses_username ruser_uses_nick first_char is_alphanumeric values
    insert modify
logged_in-nick = refl

Reach-IsValid_example : IsValid logged_in
Reach-IsValid_example = Reach-IsValid plain logged_in-Reach

Reach-unique_example : ◌≡◌ {A = UserId} 1 1
unfolding confusable eq_ignore_ascii_case cure_nickname to_ascii_lowercase
Reach-unique_example =
    Reach-unique plain logged_in-Reach 1 1 (codes "al") (codes "al") logged_in-nick logged_in-nick
      refl
