-- ===== src/Delivery/Laws.antt =====
-- What delivery does to the mailboxes, whatever is sent.
use mathlib.Core.List.{append-nil, append_assoc}
use cirque.Base.{
  ◌≤◌, Bool, false, Bytes, length, length-append, some, List, [], ◌∷◌, ◌++◌, ◌≡◌, ◌≢◌, refl, ◌∙◌,
  inl, inr, arith, Option-cases, All, All-append,
}
use cirque.Types.User.{MailboxHandle}
use cirque.ServerToClient.{Message, is_important}
use cirque.ServerToClient.Format.{write_to}
use cirque.MessageWriter.{
  Mailbox, SerializedMessage, push_message, push_messages, validate, write_chunks,
}
use cirque.MessageWriter.Bounds.{IsLine, validate-IsLine}
use cirque.Server.State.{MessageContext, Envelope, Outbox}
use cirque.Delivery.{ingest, deliver_one, deliver, Mailboxes}

-- One mailbox has taken more messages behind those that it had, each a line, within its capacity.
pub record Grown (a b : Mailbox) : Type 0 where
  pub capacity : b.capacity ≡ a.capacity
  pub is_closed : b.is_closed ≡ a.is_closed
  pub more : List SerializedMessage
  pub queue : b.queue ≡ a.queue ++ more
  pub lines : All IsLine more
  pub bounded : length a.queue ≤ a.capacity → length b.queue ≤ b.capacity

pub Grown-refl : (a : Mailbox) → Grown a a
Grown-refl a = record {
  capacity = refl;
  is_closed = refl;
  more = [];
  queue = ground (arith, append-nil a.queue);
  lines = tt;
  bounded = λ h. h;
}

pub Grown-trans : (a b c : Mailbox) → Grown a b → Grown b c → Grown a c
Grown-trans a b c p q = record {
  capacity = ground (arith, p.capacity, q.capacity);
  is_closed = ground (arith, p.is_closed, q.is_closed);
  more = p.more ++ q.more;
  queue = ground (arith, p.queue, q.queue, append_assoc a.queue p.more q.more);
  lines = All-append IsLine p.more q.more p.lines q.lines;
  bounded = λ h. q.bounded (p.bounded h);
}

push_message-Grown :
    (important : Bool) (chunks : List Bytes) (a b : Mailbox)
    → push_message important chunks a ≡ some b
    → Grown a b
unfolding push_message
push_message-Grown important chunks a b h = record {
  capacity = ground arith;
  is_closed = ground arith;
  more = _;
  queue = pushed.1;
  lines = (validate-IsLine (write_chunks [] chunks) important, tt);
  bounded = λ k. ground (arith, pushed.1, length-append a.queue (pushed.0 ∷ []));
}
  where
    pushed : (m : SerializedMessage) × (b.queue ≡ a.queue ++ (m ∷ []))
    pushed = (
      record { bytes = validate (write_chunks [] chunks); is_important = important },
      ground arith,
    )

push_messages-Grown :
    (important : Bool) (ms : List (List Bytes)) (a : Mailbox)
    → Grown a (push_messages important ms a)
unfolding push_messages
push_messages-Grown important [] a = Grown-refl a
push_messages-Grown important (m ∷ ms) a = elim (Option-cases (push_message important m a)) [
  | inl e ↦ rw (e, push_messages) (Grown-refl a)
  | inr (b, e) ↦
      rw (e, push_messages)
        (Grown-trans a b _ (push_message-Grown important m a b e)
          (push_messages-Grown important ms b))
]

ingest_cases :
    (P : Mailbox → Type 0) (context : MessageContext) (m : Message) (a : Mailbox)
    → P a
    → P (push_messages (is_important m) (write_to context.server_name m) a)
    → P (ingest context m a)
unfolding ingest
ingest_cases P context m a p q = ground arith

ingest-Grown : (context : MessageContext) (m : Message) (a : Mailbox) → Grown a (ingest context m a)
ingest-Grown context m a =
    ingest_cases (Grown a) context m a (Grown-refl a) (push_messages-Grown _ _ a)

deliver_one_cases :
    (P : Mailbox → Type 0) (context : MessageContext) (e : Envelope) (mailboxes : Mailboxes)
    (handle : MailboxHandle)
    → P (mailboxes handle)
    → P (ingest context e.message (mailboxes handle))
    → P (deliver_one context e mailboxes handle)
unfolding deliver_one
deliver_one_cases P context e mailboxes handle p q = ground arith

-- Whatever an operation sends, every mailbox keeps its messages in their order, takes new ones only
-- behind them, each of them a line of at most 510 bytes and CR LF, and never holds more than its
-- capacity.
pub deliver-Grown :
    (context : MessageContext) (out : Outbox) (mailboxes : Mailboxes) (handle : MailboxHandle)
    → Grown (mailboxes handle) (deliver context out mailboxes handle)
unfolding deliver
deliver-Grown context [] mailboxes handle = Grown-refl (mailboxes handle)
deliver-Grown context (e ∷ out) mailboxes handle =
    Grown-trans _ _ _
      (deliver_one_cases (Grown (mailboxes handle)) context e mailboxes handle (Grown-refl _)
        (ingest-Grown context e.message (mailboxes handle)))
      (deliver-Grown context out (deliver_one context e mailboxes) handle)

-- What is not addressed.
deliver_one-untouched :
    (context : MessageContext) (e : Envelope) (mailboxes : Mailboxes) (handle : MailboxHandle)
    → ((mailboxes handle).is_closed ≡ false → handle ≢ e.to)
    → deliver_one context e mailboxes handle ≡ mailboxes handle
unfolding deliver_one ingest
deliver_one-untouched context e mailboxes handle h = ground arith

-- A closed mailbox, and a mailbox that nothing is sent to, stay as they are.
deliver-untouched :
    (context : MessageContext) (out : Outbox) (mailboxes : Mailboxes) (handle : MailboxHandle)
    → All (λ (e : Envelope). (mailboxes handle).is_closed ≡ false → handle ≢ e.to) out
    → deliver context out mailboxes handle ≡ mailboxes handle
unfolding deliver
deliver-untouched context [] mailboxes handle h = refl
deliver-untouched context (e ∷ out) mailboxes handle h =
    let same = deliver_one-untouched context e mailboxes handle h.0 in
    deliver-untouched context out (deliver_one context e mailboxes) handle (rw same h.1) ∙ same
