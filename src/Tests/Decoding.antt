-- ===== src/Tests/Decoding.antt =====
-- The theorem about LIST, at a line with one option.
use cirque.Base.{codes, some, [], ◌∷◌, refl, All}
use cirque.Parser.Message.{Message as Parsed}
use cirque.ClientToServer.{ListOption, user_number, inf}
use cirque.ClientToServer.ListHandler.{handle_list}
use cirque.ClientToServer.ListLaws.{IsBare, handle_list-IsBare}

abbrev list_line : Parsed
list_line = record { command = codes "LIST"; parameters = codes "#a" ∷ codes "U" ∷ [] }

abbrev by_users : ListOption
by_users = record { filter = user_number; operation = inf; number = 0 }

handle_list-IsBare_example : All IsBare (by_users ∷ [])
unfolding handle_list
handle_list-IsBare_example =
    handle_list-IsBare list_line (codes "LIST") (some (codes "#a" ∷ [])) (by_users ∷ []) refl
