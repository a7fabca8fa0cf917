-- ===== src/ClientToServer/Handlers.antt =====
-- The handlers of cirque-core/src/client_to_server.rs and the registry that chooses one.
use cirque.Base.{
  ℕ, Bool, false, not, ◌||◌, ◌==◌, if◌then◌else◌, Bytes, is_empty, take, get_elem?, Option, none,
  some, List, [], ◌∷◌, Result, ok, err, ok_or, ◌>>=◌,
}
use cirque.Base.Utf8.{is_utf8, from_utf8}
use cirque.Error.{MessageDecodingError}
use cirque.Parser.Message.{first_parameter, Message as Parsed}
use cirque.ClientToServer.{Message}

abbrev Decoded : Type 0
Decoded = Result MessageDecodingError Message

abbrev Fallible : Type 0 → Type 0
Fallible = Result MessageDecodingError

unfoldable pub str2 : Bytes → Bytes → Fallible Bytes
unfolding from_utf8
str2 command s = ok_or (from_utf8 s) (MessageDecodingError.cannot_decode_utf8 command)

unfoldable pub opt2 : Bytes → Option Bytes → Fallible Bytes
opt2 command opt = ok_or opt (MessageDecodingError.not_enough_parameters command)

unfoldable pub optstr : Bytes → Option Bytes → Fallible Bytes
unfolding str2
optstr command none = err (MessageDecodingError.not_enough_parameters command)
optstr command (some s) = str2 command s

-- `.split(|&c| c == b',')`: as many pieces as commas, and one more.
unfoldable pub split_commas : Bytes → List Bytes
split_commas [] = [] ∷ []
split_commas (c ∷ cs) =
    let rest = split_commas cs in
    if c == b','
    then [] ∷ rest
    else elim rest [ [] ↦ (c ∷ []) ∷ [] | piece ∷ pieces ↦ (c ∷ piece) ∷ pieces ]

-- `.flat_map(|s| str2(command, s))`: a piece that is no UTF-8 is passed over.
unfoldable pub keep_utf8 : List Bytes → List Bytes
unfolding is_utf8
keep_utf8 [] = []
keep_utf8 (s ∷ ss) = let rest = keep_utf8 ss in if is_utf8 s then s ∷ rest else rest

module _ (message : Parsed) (command : Bytes) where
  abbrev param : ℕ → Option Bytes
  param = get_elem? message.parameters

  unfoldable pub channel_list : Fallible (List Bytes)
  unfolding keep_utf8 split_commas first_parameter
  channel_list = do
    p ← ok_or (first_parameter message) (MessageDecodingError.not_enough_parameters command)
    ok (keep_utf8 (split_commas p))

  unfoldable pub handle_user : Decoded
  unfolding optstr first_parameter
  handle_user = do
    user ← optstr command (first_parameter message)
    realname ← ok_or (param 3) (MessageDecodingError.not_enough_parameters command)
    if is_empty user || is_empty realname
        then err (MessageDecodingError.not_enough_parameters command)
        else ok (Message.user user realname)

  unfoldable pub handle_nick : Decoded
  unfolding str2 first_parameter
  handle_nick = do
    nick ← ok_or (first_parameter message) MessageDecodingError.no_nickname_given
    nick ← str2 command nick
    if is_empty nick then err MessageDecodingError.no_nickname_given else ok (Message.nick nick)

  unfoldable pub handle_pass : Decoded
  unfolding first_parameter
  handle_pass = do
    pass ← ok_or (first_parameter message) (MessageDecodingError.not_enough_parameters command)
    ok (Message.pass pass)

  unfoldable pub handle_ping : Decoded
  unfolding opt2 first_parameter
  handle_ping = do token ← opt2 command (first_parameter message); ok (Message.ping token)

  unfoldable pub handle_pong : Decoded
  unfolding opt2 first_parameter
  handle_pong = do token ← opt2 command (first_parameter message); ok (Message.pong token)

  unfoldable pub handle_join : Decoded
  unfolding channel_list
  handle_join = do channels ← channel_list; ok (Message.join channels)

  unfoldable pub handle_names : Decoded
  unfolding channel_list
  handle_names = do channels ← channel_list; ok (Message.names channels)

  unfoldable pub handle_topic : Decoded
  unfolding optstr first_parameter
  handle_topic = do
    target ← optstr command (first_parameter message)
    elim (param 1) [
      | some content ↦ ok (Message.set_topic target content)
      | none ↦ ok (Message.get_topic target)
    ]

  abbrev starts_with_hash : Bytes → Bool
  starts_with_hash [] = false
  starts_with_hash (c ∷ cs) = c == b'#'

  abbrev optional_str : Option Bytes → Fallible (Option Bytes)
  optional_str none = ok none
  optional_str (some p) = do s ← str2 command p; ok (some s)

  unfoldable pub handle_mode : Decoded
  unfolding optstr str2 first_parameter
  handle_mode = do
    target ← optstr command (first_parameter message)
    if not (starts_with_hash target)
        then err (MessageDecodingError.no_recipient command)
        else elim (param 1) [
          | none ↦ ok (Message.ask_mode_channel target)
          | some change ↦ do
            p ← optional_str (param 2)
            modechar ← str2 command change
            ok (Message.change_mode_channel target modechar p)
        ]

  unfoldable pub handle_privmsg : Decoded
  unfolding str2 first_parameter
  handle_privmsg = do
    target ← ok_or (first_parameter message) (MessageDecodingError.no_recipient command)
    target ← str2 command target
    content ← ok_or (param 1) MessageDecodingError.no_text_to_send
    ok (Message.priv_msg target content)

  unfoldable pub handle_notice : Decoded
  unfolding str2 first_parameter
  handle_notice = do
    target ← ok_or (first_parameter message) MessageDecodingError.silent_error
    target ← str2 command target
    content ← ok_or (param 1) MessageDecodingError.silent_error
    ok (Message.notice target content)

  unfoldable pub handle_part : Decoded
  unfolding channel_list
  handle_part = do channels ← channel_list; ok (Message.part channels (param 1))

  unfoldable pub handle_away : Decoded
  unfolding first_parameter
  handle_away = ok (
      Message.away (elim (first_parameter message) [
        | none ↦ none
        | some m ↦ if is_empty m then none else some m
      ]))

  abbrev all_str : List Bytes → Fallible (List Bytes)
  all_str [] = ok []
  all_str (p ∷ ps) = do nick ← str2 command p; nicks ← all_str ps; ok (nick ∷ nicks)

  unfoldable pub handle_userhost : Decoded
  unfolding str2
  handle_userhost =
      if is_empty message.parameters
      then err (MessageDecodingError.not_enough_parameters command)
      else do nicknames ← all_str (take 5 message.parameters); ok (Message.userhost nicknames)

  unfoldable pub handle_whois : Decoded
  unfolding str2 optstr first_parameter
  handle_whois = do
    nickname ← elim (param 1) [
      | some p ↦ str2 command p
      | none ↦ optstr command (first_parameter message)
    ]
    ok (Message.whois nickname)

  unfoldable pub handle_who : Decoded
  unfolding optstr first_parameter
  handle_who = do mask ← optstr command (first_parameter message); ok (Message.who mask)

  unfoldable pub handle_quit : Decoded
  unfolding first_parameter
  handle_quit = ok (Message.quit (first_parameter message))
