-- ===== src/Server/Recipients.antt =====
-- Who receives a message that is sent to a channel (cirque-core/src/server_state.rs).
use mathlib.Core.Logic.{◌↔◌}
use cirque.Base.{
  Bool, true, false, ◌==◌, if◌then◌else◌, is_empty, Bytes, some, List, [], ◌∷◌, ◌≡◌, ◌≢◌, refl, inl,
  inr, arith, ok, Option-cases, Bool-cases, All,
}
use cirque.Base.Map.{HashMap, get, get_key_value, keys, contains_key, id_eq, channel_id_eq}
use cirque.Types.User.{UserId, MailboxHandle, RegisteredUser}
use cirque.Types.Channel.{Channel, ensure_user_can_send_message}
use cirque.ServerToClient.{Message}
use cirque.Server.State.{ServerStateInner, Envelope, Outbox}
use cirque.Server.Broadcast.{send_to_each, others}
use cirque.Server.Nickname.{lookup_target}
use cirque.Server.Messaging.{user_messages_target_inner, message_target}

-- Among the ids of a list.
abbrev pub listed : UserId → List UserId → Bool
listed i [] = false
listed i (j ∷ ids) = if j == i then true else listed i ids

pub listed-keys {ℓ} :
    {V : Type ℓ} (i : UserId) (m : HashMap UserId V) → listed i (keys m) ≡ contains_key i m
unfolding keys get
listed-keys i [] = refl
listed-keys i ((j, w) ∷ m) = ground (arith, listed-keys i m)

pub listed-others :
    (i j : UserId) (ids : List UserId)
    → listed j (others i ids) ≡ (if j == i then false else listed j ids)
unfolding others
listed-others i j [] = ground arith
listed-others i j (k ∷ ids) = ground (arith, listed-others i j ids)

-- A mailbox that something is sent to.
unfoldable pub addressed : MailboxHandle → Outbox → Bool
addressed handle [] = false
addressed handle (e ∷ out) = if e.to == handle then true else addressed handle out

-- A user of the list has this mailbox.
abbrev pub Holds : HashMap UserId RegisteredUser → List UserId → MailboxHandle → Type 0
Holds users ids handle =
    (j : UserId) × (u : RegisteredUser) × (listed j ids ≡ true)
    × (get j users ≡ some u)
    × (u.mailbox ≡ handle)

send_to_each-addressed :
    (users : HashMap UserId RegisteredUser) (message : Message) (ids : List UserId)
    (handle : MailboxHandle)
    → addressed handle (send_to_each users message ids) ≡ true
    → Holds users ids handle
unfolding send_to_each addressed
send_to_each-addressed users message [] handle h = cc
send_to_each-addressed users message (i ∷ ids) handle h = elim (Option-cases (get i users)) [
  | inl e ↦
      let (j, u, l, g, same) = send_to_each-addressed users message ids handle (ground arith) in
      (j, u, ground arith, g, same)
  | inr (u, e) ↦ elim (Bool-cases (u.mailbox == handle)) [
    | inl same ↦ (i, u, ground arith, e, ground arith)
    | inr other ↦
        let (j, u, l, g, same) = send_to_each-addressed users message ids handle (ground arith) in
        (j, u, ground arith, g, same)
  ]
]

send_to_each-reaches :
    (users : HashMap UserId RegisteredUser) (message : Message) (ids : List UserId) (j : UserId)
    (u : RegisteredUser)
    → listed j ids ≡ true
    → get j users ≡ some u
    → addressed u.mailbox (send_to_each users message ids) ≡ true
unfolding send_to_each addressed
send_to_each-reaches users message [] j u h g = cc
send_to_each-reaches users message (i ∷ ids) j u h g = elim (Option-cases (get i users)) [
  | inl e ↦ ground (arith, send_to_each-reaches users message ids j u)
  | inr (w, e) ↦ ground (arith, send_to_each-reaches users message ids j u)
]

send_to_each-message :
    (users : HashMap UserId RegisteredUser) (message : Message) (ids : List UserId)
    → All (λ (e : Envelope). e.message ≡ message) (send_to_each users message ids)
unfolding send_to_each
send_to_each-message users message [] = tt
send_to_each-message users message (i ∷ ids) = elim (Option-cases (get i users)) [
  | inl e ↦ ground (arith, send_to_each-message users message ids)
  | inr (u, e) ↦ ground (arith, send_to_each-message users message ids)
]

module _ (s : ServerStateInner) (i : UserId) (user : RegisteredUser) (c name content : Bytes)
    (ch : Channel) where
  pub messages-channel :
      get i s.users ≡ some user
      → is_empty content ≡ false
      → get_key_value c s.channels ≡ some (name, ch)
      → ensure_user_can_send_message ch user c ≡ ok tt
      → (user_messages_target_inner s i c content).sent
        ≡ send_to_each s.users
            (Message.priv_msg user.fullspec name content)
            (others i (keys ch.users))
  unfolding user_messages_target_inner message_target lookup_target
  messages-channel e full found allowed = ground arith

  -- A PRIVMSG with some text, by a registered user who may write to the channel that it names, is sent
  -- under the channel's own name, and it goes to the mailboxes of the registered members other than
  -- the author, to all of them and to no others.
  pub user_messages_target-recipients :
      get i s.users ≡ some user
      → is_empty content ≡ false
      → get_key_value c s.channels ≡ some (name, ch)
      → ensure_user_can_send_message ch user c ≡ ok tt
      → All
          (λ (e : Envelope). e.message ≡ Message.priv_msg user.fullspec name content)
          (user_messages_target_inner s i c content).sent
        × ((handle : MailboxHandle)
            → (addressed handle (user_messages_target_inner s i c content).sent ≡ true) ↔ (
                (j : UserId) × (u : RegisteredUser) × (j ≢ i)
                × (contains_key j ch.users ≡ true)
                × (get j s.users ≡ some u)
                × (u.mailbox ≡ handle)))
  user_messages_target-recipients e full found allowed =
      let message = Message.priv_msg user.fullspec name content in
      let ids = others i (keys ch.users) in
      rw (messages-channel e full found allowed) (
        send_to_each-message s.users message ids,
        λ handle. (
          λ h.
              let (j, u, l, g, same) = send_to_each-addressed s.users message ids handle h in
              (
                j,
                u,
                ground (arith, listed-others i j (keys ch.users)),
                ground (arith, listed-others i j (keys ch.users), listed-keys j ch.users),
                g,
                same,
              ),
          λ (j, u, ne, there, g, same). ground (
            arith,
            send_to_each-reaches s.users message ids j u,
            listed-others i j (keys ch.users),
            listed-keys j ch.users,
          ),
        ),
      )
