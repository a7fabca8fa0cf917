-- ===== src/System/Conversation.antt =====
-- A private message from the lines of one session to the mailboxes of the others
-- (cirque-server/src/session.rs, cirque-core/src/server_state.rs).
use cirque.Base.{
  ℕ, ◌≤◌, ◌<◌, Bool, true, false, ◌==◌, if◌then◌else◌, is_empty, codes, Bytes, length, some, [],
  ◌∷◌, ◌++◌, ◌≡◌, refl, ap, ◌∙◌, inl, inr, arith, ok, Option-cases, Bool-cases,
}
use cirque.Base.Map.{get, get_key_value, keys, contains_key, id_eq, channel_id_eq}
use cirque.Base.Map.Laws.{get-get_key_value}
use cirque.Base.Utf8.{is_utf8}
use cirque.Types.User.{UserId, RegisteredUser}
use cirque.Types.Channel.{Channel, ensure_user_can_send_message}
use cirque.UserState.{RegisteredState, registered}
use cirque.ServerToClient.{Message}
use cirque.MessageWriter.{Mailbox}
use cirque.Parser.Message.{parse_message, Message as Parsed}
use cirque.Parser.Stream.{consume_line, next}
use cirque.Parser.RoundTrip.{IsMiddle}
use cirque.Server.State.{ServerStateInner}
use cirque.Server.Nickname.{External}
use cirque.Server.Broadcast.{send_to_each, others}
use cirque.Server.Recipients.{listed-keys, listed-others}
use cirque.Session.{handle_message}
use cirque.Session.Task.{Task}
use cirque.Session.PrivateMessage.{
  privmsg_line, parsed, privmsg-parse, privmsg-handle, privmsg-ingest,
}
use cirque.Delivery.{ingest}
use cirque.Delivery.Members.{Unique-keys, Unique-others, deliver_each-others, deliver_each-listed}
use cirque.System.{on_next, reading}
use cirque.System.Step.{System, taken}
use cirque.System.Mailboxes.{Coherent}

next-line :
    (buf line rest : Bytes) (m : Parsed)
    → consume_line buf ≡ (some line, rest)
    → parse_message line ≡ some m
    → (next buf).0 ≡ some (some m)
unfolding next
next-line buf line rest m h e = rw (h, next) (rw e refl)

on_next-sent :
    (x : External) (now : ℕ) (sv : ServerStateInner) (task : Task) (m : Parsed)
    → (next task.stream_parser.buffer).0 ≡ some (some m)
    → (on_next x now sv task).sent ≡ (handle_message x now sv task.state m).sent
unfolding on_next
on_next-sent x now sv task m h = rw (h, on_next) refl

module _ (x : External) (now : ℕ) (i : UserId) (task : Task) (st : RegisteredState)
    (user : RegisteredUser) (c name content rest : Bytes) (ch : Channel) where
  -- The next whole line that the session has read is `PRIVMSG <channel> :<text>`, and its client may
  -- write to the channel.
  pub record Says (s : System) : Type 0 where
    pub session : s.sessions i ≡ some (record { task = task; phase = reading })
    pub line : consume_line task.stream_parser.buffer ≡ (some (privmsg_line c content), rest)
    pub middle : IsMiddle c
    pub text : is_utf8 c ≡ true
    pub state : task.state ≡ registered st
    pub author : get st.user_id s.server.users ≡ some user
    pub full : is_empty content ≡ false
    pub channel : get_key_value c s.server.channels ≡ some (name, ch)
    pub allowed : ensure_user_can_send_message ch user c ≡ ok tt

  -- What the others read: `:<author> PRIVMSG <channel> :<text>`, ended by CR LF.
  abbrev pub said : Bytes
  said = codes ":" ++ (user.fullspec ++ (codes " PRIVMSG " ++ (name ++ (codes " :" ++ content))))

  abbrev pub with_said : Mailbox → Mailbox
  with_said box = record box {
    queue =
        box.queue ++ (record { bytes = said ++ (b'\r' ∷ b'\n' ∷ []); is_important = true } ∷ []);
  }

  -- A member of the channel other than the author.
  abbrev pub is_told : UserId → Bool
  is_told j = if j == st.user_id then false else contains_key j ch.users

  Says-sent :
      (s : System)
      → Says s
      → (on_next x now s.server task).sent
        ≡ send_to_each s.server.users
            (Message.priv_msg user.fullspec name content)
            (others st.user_id (keys ch.users))
  Says-sent s h =
      let m = parsed c content in
      let found =
        next-line task.stream_parser.buffer (privmsg_line c content) rest m h.line
          (privmsg-parse c content h.middle) in
      on_next-sent x now s.server task m found
      ∙ ap (λ us. (handle_message x now s.server us m).sent) h.state
      ∙ privmsg-handle x (λ k. now) 0 s.server st user c name content ch h.text h.author h.full
          h.channel h.allowed

  told :
      (s : System)
      → Coherent s
      → Says s
      → (j : UserId)
      → (taken s i (on_next x now s.server task)).mailboxes j ≡ (
          if is_told j
          then ingest s.server.message_context
              (Message.priv_msg user.fullspec name content)
              (s.mailboxes j)
          else s.mailboxes j)
  unfolding taken
  told s r h j =
      let v = r.valid in
      let own = r.own.user in
      let context = s.server.message_context in
      let message = Message.priv_msg user.fullspec name content in
      let ids = others st.user_id (keys ch.users) in
      let found : get c s.server.channels ≡ some ch =
        ground (arith, get-get_key_value c s.server.channels, h.channel) in
      let valid = v.channels_valid c ch found in
      let among = listed-others st.user_id j (keys ch.users) in
      let there = listed-keys j ch.users in
      rw (Says-sent s h) (elim (Bool-cases (is_told j)) [
        | inr out ↦ rw out (
            deliver_each-others s.server.users own context message ids s.mailboxes j
              (ground (arith, among, there)))
        | inl member ↦ elim (Option-cases (get j s.server.users)) [
          | inl e ↦ absurd (ground (arith, valid.known j))
          | inr (w, e) ↦ rw member (
              deliver_each-listed s.server.users own context message ids s.mailboxes j w
                (Unique-others st.user_id (keys ch.users) (Unique-keys ch.users valid.distinct))
                (ground (arith, among, there)) e)
        ]
      ])

  -- In a coherent state, as every state is that the program can reach: when the task of a registered client comes to the line
  -- `PRIVMSG <channel> :<text>`, with some text, and the client may write to the channel, the mailbox
  -- of every member but the author takes `:<author> PRIVMSG <channel> :<text>` with CR LF, once, behind
  -- what is there, and the mailbox of nobody else is touched; provided that the message has at most 510
  -- bytes and, for a given client, that its mailbox has a place left.
  pub privmsg-conversation :
      (s : System)
      → Coherent s
      → Says s
      → (j : UserId) → length said ≤ 510
      → length (s.mailboxes j).queue < 128
      → (taken s i (on_next x now s.server task)).mailboxes j
        ≡ (if is_told j then with_said (s.mailboxes j) else s.mailboxes j)
  privmsg-conversation s r h j short room = elim (Bool-cases (is_told j)) [
    | inr out ↦ told s r h j ∙ rw out refl
    | inl member ↦
        let found : get c s.server.channels ≡ some ch =
          ground (arith, get-get_key_value c s.server.channels, h.channel) in
        let known = r.valid.channels_valid c ch found in
        elim (Option-cases (get j s.server.users)) [
          | inl e ↦ absurd (ground (arith, known.known j))
          | inr (w, e) ↦
              let (session, here, is_open, capacity) = r.served j w e in
              told s r h j
              ∙ rw member (
                  privmsg-ingest x (λ k. now) 0 s.server st user c name content ch
                    s.server.message_context (s.mailboxes j) short is_open (rw capacity room))
        ]
  ]
