-- ===== src/ClientToServer/Registry.antt =====
-- `REGISTRY` and `TryFrom` of cirque-core/src/client_to_server.rs.
use cirque.Base.{
  if◌then◌else◌, Bytes, codes, eq_ignore_ascii_case, Option, none, some, List, [], ◌∷◌, Result, ok,
  err,
}
use cirque.Base.Utf8.{is_utf8}
use cirque.Error.{MessageDecodingError, cannot_decode_utf8}
use cirque.Parser.Message.{Message as Parsed}
use cirque.ClientToServer.{Message}
use cirque.ClientToServer.Handlers.{
  handle_user, handle_nick, handle_pass, handle_ping, handle_pong, handle_join, handle_names,
  handle_topic, handle_mode, handle_privmsg, handle_notice, handle_part, handle_away,
  handle_userhost, handle_whois, handle_who, handle_quit,
}
use cirque.ClientToServer.ListHandler.{handle_list}

abbrev pub Handler : Type 0
Handler = Parsed → Bytes → Result MessageDecodingError Message

unfoldable pub handle_motd : Handler
handle_motd message command = ok Message.motd

unfoldable pub handle_lusers : Handler
handle_lusers message command = ok Message.lusers

unfoldable pub registry : List (Bytes × Handler)
unfolding handle_user handle_nick handle_pass handle_ping handle_pong handle_join handle_names
    handle_topic handle_mode handle_privmsg handle_notice handle_part handle_list handle_motd
    handle_away handle_userhost handle_whois handle_who handle_lusers handle_quit
registry =
    (codes "USER", handle_user)
    ∷ (codes "NICK", handle_nick)
    ∷ (codes "PASS", handle_pass)
    ∷ (codes "PING", handle_ping)
    ∷ (codes "PONG", handle_pong)
    ∷ (codes "JOIN", handle_join)
    ∷ (codes "NAMES", handle_names)
    ∷ (codes "TOPIC", handle_topic)
    ∷ (codes "MODE", handle_mode)
    ∷ (codes "PRIVMSG", handle_privmsg)
    ∷ (codes "NOTICE", handle_notice)
    ∷ (codes "PART", handle_part)
    ∷ (codes "LIST", handle_list)
    ∷ (codes "MOTD", handle_motd)
    ∷ (codes "AWAY", handle_away)
    ∷ (codes "USERHOST", handle_userhost)
    ∷ (codes "WHOIS", handle_whois)
    ∷ (codes "WHO", handle_who)
    ∷ (codes "LUSERS", handle_lusers)
    ∷ (codes "QUIT", handle_quit)
    ∷ []

-- A key of the registry equals a command up to ASCII case.
unfoldable pub find_handler : Bytes → List (Bytes × Handler) → Option Handler
find_handler command [] = none
find_handler command ((name, handler) ∷ rest) =
    if eq_ignore_ascii_case name command then some handler else find_handler command rest

unfoldable pub try_from : Parsed → Result MessageDecodingError Message
unfolding is_utf8 registry find_handler
try_from message =
    if is_utf8 message.command
    then elim (find_handler message.command registry) [
      | none ↦ ok (Message.unknown message.command)
      | some handler ↦ handler message message.command
    ]
    else err (cannot_decode_utf8 message.command)
