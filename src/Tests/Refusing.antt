-- ===== src/Tests/Refusing.antt =====
-- The theorem about lines that do not decode, at the server of Fixtures: Al sends a JOIN without a
-- channel.
use cirque.Base.{codes, [], refl, eq_ignore_ascii_case}
use cirque.Base.Map.{get, id_eq}
use cirque.UserState.{registered}
use cirque.Error.{not_enough_parameters}
use cirque.ClientToServer.Registry.{try_from}
use cirque.Session.{handle_message}
use cirque.Session.Invalid.{Refused, handle_message-Refused}
use cirque.Tests.Fixtures.{plain, house, house-IsValid}
use cirque.Tests.Reaching.{line}
use cirque.Tests.Together.{al_state}

handle_message-Refused_example :
    Refused house
      (registered al_state)
      (handle_message plain 0 house (registered al_state) (line (codes "JOIN") []))
unfolding get try_from eq_ignore_ascii_case
handle_message-Refused_example =
    handle_message-Refused plain 0 house house-IsValid 1 (registered al_state) (refl, refl)
      (line (codes "JOIN") []) (not_enough_parameters (codes "JOIN")) refl
