-- ===== src/Error.antt =====
-- cirque-core/src/error.rs: the errors that the server replies, their text, and the reply to a
-- message that cannot be decoded (`MessageDecodingError` of cirque-core/src/client_to_server.rs).
use cirque.Base.{Result, Bytes, codes, List, [], ◌∷◌, ◌++◌, Option, none, some}

pub data ServerStateError : Type 0 where
  unknown_error : (client command info : Bytes) → ServerStateError
  no_such_nick : (client target : Bytes) → ServerStateError
  no_such_channel : (client channel : Bytes) → ServerStateError
  cannot_send_to_chan : (client channel : Bytes) → ServerStateError
  no_recipient : (client command : Bytes) → ServerStateError
  no_text_to_send : (client : Bytes) → ServerStateError
  unknown_command : (client command : Bytes) → ServerStateError
  no_nickname_given : (client : Bytes) → ServerStateError
  erroneous_nickname : (client nickname : Bytes) → ServerStateError
  nickname_in_use : (client nickname : Bytes) → ServerStateError
  user_not_in_channel : (client nickname channel : Bytes) → ServerStateError
  not_on_channel : (client channel : Bytes) → ServerStateError
  not_registered : (client : Bytes) → ServerStateError
  need_more_params : (client command : Bytes) → ServerStateError
  passwd_mismatch : (client : Bytes) → ServerStateError
  unknown_mode : (client modechar : Bytes) → ServerStateError
  bad_chan_mask : (client channel : Bytes) → ServerStateError
  chan_op_privs_needed : (client channel : Bytes) → ServerStateError

-- `Result<(), ServerStateError>`
abbrev pub Outcome : Type 0
Outcome = Result ServerStateError (Unit {0})

-- `"<numeric> {client}{rest}"`
abbrev numeric : Bytes → Bytes → Bytes → Bytes
numeric code client rest = code ++ (client ++ rest)

-- The `#[error(...)]` texts.
unfoldable pub to_string : ServerStateError → Bytes
to_string (unknown_error client command info) =
    numeric (codes "400 ") client (codes " ____ :" ++ info)
to_string (no_such_nick client target) =
    numeric (codes "401 ") client (codes " " ++ (target ++ codes " :No such nick/channel"))
to_string (no_such_channel client channel) =
    numeric (codes "403 ") client (codes " " ++ (channel ++ codes " :No such channel"))
to_string (cannot_send_to_chan client channel) =
    numeric (codes "404 ") client (codes " " ++ (channel ++ codes " :Cannot send to channel"))
to_string (no_recipient client command) =
    numeric (codes "411 ") client (codes " :No recipient given (" ++ (command ++ codes ")"))
to_string (no_text_to_send client) = numeric (codes "412 ") client (codes " :No text to send")
to_string (unknown_command client command) =
    numeric (codes "421 ") client (codes " " ++ (command ++ codes " :Unknown command"))
to_string (no_nickname_given client) = numeric (codes "431 ") client (codes " :No nickname given")
to_string (erroneous_nickname client nickname) =
    numeric (codes "432 ") client (codes " " ++ (nickname ++ codes " :Erroneous nickname"))
to_string (nickname_in_use client nickname) =
    numeric (codes "433 ") client (codes " " ++ (nickname ++ codes " :Nickname is already in use"))
to_string (user_not_in_channel client nickname channel) =
    numeric (codes "441 ") client
      (codes " " ++ (nickname ++ (codes " " ++ (channel ++ codes " :They aren't on that channel"))))
to_string (not_on_channel client channel) =
    numeric (codes "442 ") client (codes " " ++ (channel ++ codes " :You're not on that channel"))
to_string (not_registered client) =
    numeric (codes "451 ") client (codes " :You have not registered")
to_string (need_more_params client command) =
    numeric (codes "461 ") client (codes " " ++ (command ++ codes " :Not enough parameters"))
to_string (passwd_mismatch client) = numeric (codes "464 ") client (codes " :Password incorrect")
to_string (unknown_mode client modechar) =
    numeric (codes "472 ") client (codes " " ++ (modechar ++ codes " :is unknown mode char to me"))
to_string (bad_chan_mask client channel) =
    numeric (codes "476 ") client (codes " " ++ (channel ++ codes " :Bad Channel Mask"))
to_string (chan_op_privs_needed client channel) =
    numeric (codes "482 ") client (codes " " ++ (channel ++ codes " :You're not channel operator"))

-- `ServerStateError::write_to`: the chunks that it writes to the message begun by the caller.
unfoldable pub write_error : ServerStateError → List Bytes
unfolding to_string
write_error (unknown_error client command info) =
    codes "400 {client} ____ :{info}" ∷ client ∷ codes " " ∷ command ∷ codes " :" ∷ info ∷ []
write_error e = to_string e ∷ []

pub data MessageDecodingError : Type 0 where
  cannot_decode_utf8 : (command : Bytes) → MessageDecodingError
  not_enough_parameters : (command : Bytes) → MessageDecodingError
  cannot_parse_integer : (command : Bytes) → MessageDecodingError
  no_nickname_given : MessageDecodingError
  no_text_to_send : MessageDecodingError
  no_recipient : (command : Bytes) → MessageDecodingError
  silent_error : MessageDecodingError

unfoldable pub from_decoding_error_with_client :
    MessageDecodingError → Bytes → Option ServerStateError
from_decoding_error_with_client (cannot_decode_utf8 command) client =
    some (unknown_error client command (codes "Cannot decode utf8"))
from_decoding_error_with_client (not_enough_parameters command) client =
    some (need_more_params client command)
from_decoding_error_with_client (cannot_parse_integer command) client =
    some (unknown_error client command (codes "Cannot parse integer"))
from_decoding_error_with_client MessageDecodingError.no_nickname_given client =
    some (ServerStateError.no_nickname_given client)
from_decoding_error_with_client MessageDecodingError.no_text_to_send client =
    some (ServerStateError.no_text_to_send client)
from_decoding_error_with_client (MessageDecodingError.no_recipient command) client =
    some (ServerStateError.no_recipient client command)
from_decoding_error_with_client silent_error client = none
