-- ===== src/Delivery.antt =====
-- `Mailbox::ingest` of cirque-core/src/message_writer.rs, and the delivery of what an operation of
-- the server sent. The mailboxes are a store: a user holds the handle of its own, and the session's
-- `MailboxSink` reads from the same mailbox.
pub mod Laws
pub mod Members
use cirque.Base.{ℕ, Bool, true, false, ◌==◌, if◌then◌else◌, Bytes, List, [], ◌∷◌}
use cirque.Types.User.{MailboxHandle}
use cirque.ServerToClient.{Message, is_important}
use cirque.ServerToClient.Format.{write_to}
use cirque.MessageWriter.{Mailbox, push_messages}
use cirque.Server.State.{MessageContext, Envelope, Outbox}

unfoldable pub ingest : MessageContext → Message → Mailbox → Mailbox
unfolding push_messages write_to is_important
ingest context message self =
    if self.is_closed
    then self
    else push_messages (is_important message) (write_to context.server_name message) self

abbrev pub Mailboxes : Type 0
Mailboxes = MailboxHandle → Mailbox

-- One call of `send`.
unfoldable pub deliver_one : MessageContext → Envelope → Mailboxes → Mailboxes
deliver_one context e mailboxes handle =
    if handle == e.to then ingest context e.message (mailboxes handle) else mailboxes handle

unfoldable pub deliver : MessageContext → Outbox → Mailboxes → Mailboxes
unfolding deliver_one
deliver context [] mailboxes = mailboxes
deliver context (e ∷ es) mailboxes = deliver context es (deliver_one context e mailboxes)
