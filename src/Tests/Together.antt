-- ===== src/Tests/Together.antt =====
-- The theorems about several clients, at a server of two sessions and at the server of Fixtures.
use cirque.Base.{true, codes, none, [], ◌≡◌, refl, eq_ignore_ascii_case, to_ascii_lowercase, arith}
use cirque.Base.Map.{get, id_eq, contains_key, values}
use cirque.UserState.{RegisteredState, UserState, registering, registered, disconnected}
use cirque.UserState
use cirque.Timeout
use cirque.Server.State
use cirque.Server.Registration.{new_registering_user}
use cirque.Server.Nickname.{check_nickname}
use cirque.Server.Departure.{user_changes_nick}
use cirque.Session.{handle_message}
use cirque.Server.Renaming.{user_changes_nick-recipients}
use cirque.Invariant.Untouched.{Untouched}
use cirque.Invariant.Isolation.{session-Untouched}
use cirque.Invariant.World.{World, WorldStep, WorldReach, replied}
use cirque.Invariant.Registry.{WorldReach-sessions}
use cirque.Tests.Fixtures.{plain, house, house-IsValid, al}
use cirque.Tests.Reaching.{line, fresh, nick_line}
use cirque.Base.Utf8.{first_char, is_alphanumeric}

abbrev pub al_state : RegisteredState
al_state = record { user_id = 1; ping_state = Timeout.new 0 none }

-- Al takes the name `ada`.
user_changes_nick-recipients_example :
    (user_changes_nick plain house al_state (codes "ada")).user_state ≡ registered al_state
unfolding get check_nickname first_char is_alphanumeric values eq_ignore_ascii_case
    to_ascii_lowercase
user_changes_nick-recipients_example =
    (user_changes_nick-recipients plain house house-IsValid al_state al (codes "ada") refl refl
      refl).1

-- Al quits; Bo stays as it was.
session-Untouched_example :
    Untouched 2 house
      (handle_message plain 0 house (registered al_state) (line (codes "QUIT") [])).sv
session-Untouched_example =
    (session-Untouched plain house house-IsValid 2 (registered al_state) (ground arith)).0 0
      (line (codes "QUIT") [])

abbrev empty_world : World
empty_world = record { server = fresh; sessions = λ i. disconnected }

abbrev one_client : World
one_client = replied empty_world 1 (new_registering_user fresh 1 11 0)

abbrev two_clients : World
two_clients = replied one_client 2 (new_registering_user one_client.server 2 12 5)

abbrev one_named : World
one_named =
    replied two_clients 1
      (handle_message plain 7 two_clients.server (two_clients.sessions 1) nick_line)

one_named-WorldReach : WorldReach plain one_named
one_named-WorldReach =
    WorldReach.next
      (WorldReach.next
        (WorldReach.next
          (WorldReach.start (codes "cirque") (record { send_isupport = true }) none none none)
          (WorldStep.connect 1 11 0 refl))
        (WorldStep.connect 2 12 5 refl))
      (WorldStep.receive 1 7 nick_line)

-- The second client registers, so the server has it among the registering users.
WorldReach-sessions_example : contains_key 2 one_named.server.registering_users ≡ true
unfolding new_registering_user UserState.new State.new
WorldReach-sessions_example =
    (WorldReach-sessions plain one_named-WorldReach 2).1.1 (UserState.new 2 5 none, refl)
