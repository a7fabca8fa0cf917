-- ===== src/Session/PrivateMessage.antt =====
-- A PRIVMSG from the line of its author to the mailboxes of the others: the parser, the registry, the
-- server, the serialiser and the mailbox together.
use cirque.Base.{
  ℕ, ◌≤◌, ◌<◌, true, false, Bytes, codes, length, is_empty, some, List, [], ◌∷◌, ◌++◌, ◌≡◌, refl,
  ◌∙◌, arith, ok, eq_ignore_ascii_case, to_ascii_lowercase,
}
use mathlib.Core.List.{append-nil}
use cirque.Base.Map.{get, get_key_value, keys, id_eq, channel_id_eq}
use cirque.Base.Utf8.{is_utf8, from_utf8}
use cirque.Types.User.{RegisteredUser}
use cirque.Types.Channel.{Channel, ensure_user_can_send_message}
use cirque.Parser.Message.{Message as Parsed, parse_message, first_parameter}
use cirque.Parser.RoundTrip.{IsMiddle, print_message, parse_message-print}
use cirque.ClientToServer.{Message as Command}
use cirque.ClientToServer.Handlers.{handle_privmsg, str2}
use cirque.ClientToServer.Registry.{try_from}
use cirque.ServerToClient.{Message, is_important}
use cirque.ServerToClient.Format.{write_to}
use cirque.MessageWriter.{Mailbox, push_messages}
use cirque.MessageWriter.Content.{concat, push_message-short}
use cirque.Delivery.{ingest}
use cirque.UserState.{RegisteredState, registered}
use cirque.Server.State.{ServerStateInner, MessageContext, report}
use cirque.Server.Nickname.{External, lookup_target}
use cirque.Server.Broadcast.{send_to_each, others}
use cirque.Server.Messaging.{user_messages_target, user_messages_target_inner, message_target}
use cirque.Session.{handle_message, dispatch_registered}
use cirque.Session.Task.{handle_lines}

-- `PRIVMSG <target> :<content>`
abbrev pub privmsg_line : Bytes → Bytes → Bytes
privmsg_line target content = print_message (codes "PRIVMSG") (target ∷ []) content

abbrev pub parsed : Bytes → Bytes → Parsed
parsed target content = record { command = codes "PRIVMSG"; parameters = target ∷ content ∷ [] }

pub privmsg-parse :
    (target content : Bytes)
    → IsMiddle target
    → parse_message (privmsg_line target content) ≡ some (parsed target content)
privmsg-parse target content h =
    parse_message-print (codes "PRIVMSG") (target ∷ []) content
      (refl, (refl, (refl, (refl, (refl, (refl, (refl, tt))))))) (h, tt)

privmsg-try_from :
    (target content : Bytes)
    → is_utf8 target ≡ true
    → try_from (parsed target content) ≡ ok (Command.priv_msg target content)
unfolding try_from eq_ignore_ascii_case to_ascii_lowercase handle_privmsg str2 from_utf8
    first_parameter
privmsg-try_from target content h = rw h refl

module _ (x : External) (clock : ℕ → ℕ) (k : ℕ) (s : ServerStateInner) (st : RegisteredState)
    (user : RegisteredUser) (c name content : Bytes) (ch : Channel) where
  -- What the other members of the channel are sent.
  abbrev private_message : Message
  private_message = Message.priv_msg user.fullspec name content

  pub privmsg-handle :
      is_utf8 c ≡ true
      → get st.user_id s.users ≡ some user
      → is_empty content ≡ false
      → get_key_value c s.channels ≡ some (name, ch)
      → ensure_user_can_send_message ch user c ≡ ok tt
      → (handle_message x (clock k) s (registered st) (parsed c content)).sent
        ≡ send_to_each s.users private_message (others st.user_id (keys ch.users))
  unfolding handle_message dispatch_registered user_messages_target report
      user_messages_target_inner message_target lookup_target
  privmsg-handle text e full found allowed =
      rw (privmsg-try_from c content text, handle_message) (ground arith)

  privmsg-line :
      IsMiddle c
      → is_utf8 c ≡ true
      → get st.user_id s.users ≡ some user
      → is_empty content ≡ false
      → get_key_value c s.channels ≡ some (name, ch)
      → ensure_user_can_send_message ch user c ≡ ok tt
      → (handle_lines x clock k s (registered st) (privmsg_line c content ∷ [])).sent
        ≡ send_to_each s.users private_message (others st.user_id (keys ch.users))
  unfolding handle_lines
  privmsg-line middle text e full found allowed =
      rw (privmsg-parse c content middle, handle_lines)
        (append-nil _ ∙ privmsg-handle text e full found allowed)

  -- The line as the others get it.
  abbrev wire_line : Bytes
  wire_line =
      codes ":" ++ (user.fullspec ++ (codes " PRIVMSG " ++ (name ++ (codes " :" ++ content))))

  abbrev chunks : List Bytes
  chunks = codes ":" ∷ user.fullspec ∷ codes " PRIVMSG " ∷ name ∷ codes " :" ∷ content ∷ []

  chunks-concat : concat chunks ≡ wire_line
  unfolding concat
  chunks-concat = rw (append-nil content) refl

  pub privmsg-ingest :
      (context : MessageContext) (box : Mailbox)
      → length wire_line ≤ 510
      → box.is_closed ≡ false
      → length box.queue < box.capacity
      → ingest context private_message box ≡ record box {
        queue =
            box.queue
            ++ (record { bytes = wire_line ++ (b'\r' ∷ b'\n' ∷ []); is_important = true } ∷ []);
      }
  unfolding ingest push_messages write_to is_important
  privmsg-ingest context box short is_open room =
      let pushed = (push_message-short true chunks box (rw chunks-concat short)).1 room in
      ground (arith, chunks-concat)

  -- A registered user's line `PRIVMSG <channel> :<text>`, with some text, to a channel that exists and
  -- that the user may write to, is sent on to each registered member of the channel but the author;
  -- and in a mailbox that is open and has room, a message of at most 510 bytes arrives as
  -- `:<author> PRIVMSG <channel> :<text>`, byte for byte and ended by CR LF, behind what is there.
  privmsg-delivered :
      IsMiddle c
      → is_utf8 c ≡ true
      → get st.user_id s.users ≡ some user
      → is_empty content ≡ false
      → get_key_value c s.channels ≡ some (name, ch)
      → ensure_user_can_send_message ch user c ≡ ok tt
      → ((handle_lines x clock k s (registered st) (privmsg_line c content ∷ [])).sent
          ≡ send_to_each s.users private_message (others st.user_id (keys ch.users)))
        × ((context : MessageContext) (box : Mailbox)
            → length wire_line ≤ 510
            → box.is_closed ≡ false
            → length box.queue < box.capacity
            → ingest context private_message box ≡ record box {
              queue =
                  box.queue
                  ++ (record { bytes = wire_line ++ (b'\r' ∷ b'\n' ∷ []); is_important = true }
                      ∷ []);
            })
  privmsg-delivered middle text e full found allowed =
      (privmsg-line middle text e full found allowed, privmsg-ingest)
