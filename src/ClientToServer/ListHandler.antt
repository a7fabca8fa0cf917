-- ===== src/ClientToServer/ListHandler.antt =====
-- `handle_list` of cirque-core/src/client_to_server.rs, with its walk over the options.
use Prim.Native.Nat.{◌^◌}
use cirque.Base.{
  ℕ, suc, ◌+◌, ◌*◌, ◌-◌, true, false, ◌&&◌, ◌==◌, ltb, if◌then◌else◌, Bytes, codes, bytes_eq,
  is_digit, is_empty, drop, get_elem?, to_ascii_lowercase, Option, none, some, List, [], ◌∷◌, map,
  Result, ok, err, ok_or, ◌>>=◌,
}
use cirque.Error.{MessageDecodingError, cannot_parse_integer, not_enough_parameters}
use cirque.Parser.Message.{first_parameter, Message as Parsed}
use cirque.ClientToServer.{
  ListFilter, ListOperation, ListOption, Message, channel_creation, topic_update, user_number, inf,
  sup,
}
use cirque.ClientToServer.Handlers.{str2, split_commas, keep_utf8}

abbrev Fallible : Type 0 → Type 0
Fallible = Result MessageDecodingError

abbrev u64_limit : ℕ
u64_limit = 2 ^ 64

-- The digits of `str::parse::<u64>`; `none` on another byte or on overflow.
parse_digits : ℕ → Bytes → Option ℕ
parse_digits n [] = some n
parse_digits n (c ∷ cs) =
    let n' = n * 10 + (c - b'0') in
    elim (is_digit c && ltb n' u64_limit) [ true ↦ parse_digits n' cs | false ↦ none ]

-- A sign `+` may come first, and there is at least one digit.
unfoldable pub parse_u64 : Bytes → Option ℕ
unfolding parse_digits
parse_u64 [] = none
parse_u64 (c ∷ cs) =
    if c == b'+' then (if is_empty cs then none else parse_digits 0 cs) else parse_digits 0 (c ∷ cs)

-- The filter letter, and the `index` afterwards.
unfoldable pub option_filter : Bytes → ℕ → ℕ → Fallible (ListFilter × ℕ)
option_filter command letter index =
    if ltb letter 128
    then (if letter == b'C'
        then ok (channel_creation, index + 1)
        else if letter == b'U'
        then ok (user_number, index + 1)
        else if letter == b'T'
        then ok (topic_update, index + 1)
        else err (not_enough_parameters command))
    else ok (user_number, index)

unfoldable pub option_operation : Bytes → Option Bytes → ℕ → Fallible (ListOperation × ℕ)
option_operation command none index = ok (inf, index)
option_operation command (some operation) index =
    if bytes_eq operation (codes "<")
    then ok (inf, index + 1)
    else if bytes_eq operation (codes ">")
    then ok (sup, index + 1)
    else err (not_enough_parameters command)

unfoldable pub option_number : Bytes → Option Bytes → Fallible ℕ
unfolding str2 parse_u64
option_number command none = ok 0
option_number command (some number) = do
  count ← str2 command number
  ok_or (parse_u64 count) (cannot_parse_integer command)

-- The body of the loop, for the option at `param_index`.
unfoldable pub list_option : List Bytes → Bytes → ℕ → Bytes → Fallible ListOption
unfolding option_filter option_operation option_number
list_option params command param_index [] = err (not_enough_parameters command)
list_option params command param_index (letter ∷ _) = do
  f ← option_filter command letter param_index
  o ← option_operation command (get_elem? params (param_index + f.1)) f.1
  n ← option_number command (get_elem? params (param_index + o.1))
  ok (record { filter = f.0; operation = o.0; number = n })

unfoldable pub list_options : List Bytes → Bytes → ℕ → List Bytes → Fallible (List ListOption)
unfolding list_option
list_options params command param_index [] = ok []
list_options params command param_index (option ∷ rest) = do
  first ← list_option params command param_index option
  others ← list_options params command (suc param_index) rest
  ok (first ∷ others)

abbrev pub optional_list : List ListOption → Option (List ListOption)
optional_list [] = none
optional_list (o ∷ os) = some (o ∷ os)

unfoldable pub handle_list : Parsed → Bytes → Fallible Message
unfolding list_options split_commas keep_utf8 to_ascii_lowercase first_parameter
handle_list message command = elim (first_parameter message) [
  | none ↦ do
    options ← list_options message.parameters command 0 message.parameters
    ok (Message.list none (optional_list options))
  | some p ↦
      let chans = map (map to_ascii_lowercase) (keep_utf8 (split_commas p)) in
      let start_index : ℕ = (if is_empty chans then 0 else 1) in
      (do
        options ←
            list_options message.parameters command start_index
              (drop start_index message.parameters)
        ok (Message.list (some chans) (optional_list options)))
]
