-- ===== src/MessageWriter.antt =====
-- cirque-core/src/message_writer.rs: the bounded mailbox of a client, and the 512 bytes of one IRC
-- message. The tokio channel is the queue of what was sent and not yet received.
pub mod Bounds
pub mod Content
use cirque.Base.{
  ℕ, zero, suc, ◌+◌, ◌-◌, min, Bool, true, false, ◌||◌, ltb, leb, if◌then◌else◌, Bytes, codes,
  length, take, Option, none, some, List, [], ◌∷◌, ◌++◌,
}

abbrev pub irc_message_max_size : ℕ
irc_message_max_size = 512

pub record SerializedMessage : Type 0 where
  pub bytes : Bytes
  pub is_important : Bool

pub record Mailbox : Type 0 where
  pub capacity : ℕ
  pub queue : List SerializedMessage
  pub is_closed : Bool

-- `Mailbox::new`
unfoldable pub new : ℕ → Mailbox
new capacity = record { capacity = capacity; queue = []; is_closed = false }

-- An ongoing message: the bytes before the cursor's position in its buffer of 512 zeros.
abbrev pub OnGoingMessage : Type 0
OnGoingMessage = Bytes

-- `write_all` into a cursor over 512 bytes writes what fits.
unfoldable pub write : OnGoingMessage → Bytes → OnGoingMessage
write self bytes = take irc_message_max_size (self ++ bytes)

unfoldable pub write_chunks : OnGoingMessage → List Bytes → OnGoingMessage
unfolding write
write_chunks self [] = self
write_chunks self (chunk ∷ chunks) = write_chunks (write self chunk) chunks

-- `(c as i8) >= -0x40`
abbrev pub is_utf8_char_boundary : ℕ → Bool
is_utf8_char_boundary c = ltb c 0x80 || leb 0xc0 c

unfoldable pub zeros : ℕ → Bytes
zeros zero = []
zeros (suc n) = 0 ∷ zeros n

-- `Iterator::rposition`
unfoldable pub rposition : (ℕ → Bool) → Bytes → Option ℕ
rposition p [] = none
rposition p (c ∷ cs) =
    let later = rposition p cs in
    elim later [ some n ↦ some (suc n) | none ↦ if p c then some 0 else none ]

abbrev or_zero : Option ℕ → ℕ
or_zero none = 0
or_zero (some n) = n

-- Where `validate` cuts: the buffer's bytes 0 to 510 are looked at, zeros included.
unfoldable pub cut : OnGoingMessage → ℕ
unfolding rposition zeros
cut self =
    let buf = self ++ zeros (irc_message_max_size - length self) in
    min (length self) (or_zero (rposition is_utf8_char_boundary (take 511 buf)))

-- The bytes that `validate` sends.
unfoldable pub validate : OnGoingMessage → Bytes
unfolding cut
validate self = take (cut self) self ++ (b'\r' ∷ b'\n' ∷ [])

-- `new_message()?`, the writes and `validate()`; `none` if the mailbox is full.
unfoldable pub push_message : Bool → List Bytes → Mailbox → Option Mailbox
unfolding write_chunks validate
push_message is_important chunks self =
    if ltb (length self.queue) self.capacity
    then some (record self {
      queue =
          self.queue
          ++ (record { bytes = validate (write_chunks [] chunks); is_important = is_important }
              ∷ []);
    })
    else none

-- The messages of one `write_to`, which stops at the first that finds no place.
unfoldable pub push_messages : Bool → List (List Bytes) → Mailbox → Mailbox
unfolding push_message
push_messages is_important [] self = self
push_messages is_important (m ∷ ms) self = elim (push_message is_important m self) [
  | none ↦ self
  | some self' ↦ push_messages is_important ms self'
]

-- `MailboxSink::try_recv`
unfoldable pub try_recv : Mailbox → Option SerializedMessage × Mailbox
try_recv self = elim self.queue [
  | [] ↦ (none, self)
  | m ∷ rest ↦ (some m, record self { queue = rest })
]

-- `MailboxSink::close`
unfoldable pub close : Mailbox → Mailbox
close self = record self { is_closed = true }
