-- ===== src/Server/Parting.antt =====
-- PART (cirque-core/src/server_state.rs): who is a member afterwards.
use cirque.Base.{
  true, false, if◌then◌else◌, ◌==◌, Bytes, eq_ignore_ascii_case, Option, none, some, ◌≡◌, ◌≢◌, refl,
  ◌⊎◌, arith, ok,
}
use cirque.Base.Map.{get, remove, keys, contains_key, id_eq, channel_id_eq}
use cirque.Base.Map.Laws.{get-remove, get-modify, get-congr}
use cirque.Types.User.{UserId, RegisteredUser}
use cirque.Types.Channel.{Channel}
use cirque.ServerToClient.{Message}
use cirque.Server.State.{ServerStateInner}
use cirque.Server.Nickname.{validate_channel_name}
use cirque.Server.Broadcast.{send_to_each}
use cirque.Server.Membership.{user_leaves_channel, without_member}
use cirque.Server.Valid.{IsValid}
use cirque.Server.Valid.Broadcast.{keys-AllKnown, broadcast-AllKnown}
use cirque.Server.Presence.{mode_in, empty-get}

pub without_member-mode_in :
    (s : ServerStateInner) (i : UserId) (c d : Bytes) (ch : Channel) (j : UserId)
    → get c s.channels ≡ some ch
    → mode_in (record s { channels = without_member i c ch s.channels }) d j ≡ (
        if eq_ignore_ascii_case c d
        then (if i == j then none else get j ch.users)
        else mode_in s d j)
unfolding without_member
without_member-mode_in s i c d ch j e = ground (
  arith,
  get-remove c d s.channels,
  get-modify c d (λ w. record w { users = remove i ch.users }) s.channels,
  get-congr c d s.channels,
  get-remove i j ch.users,
  empty-get j (remove i ch.users),
)

module _ (s : ServerStateInner) (v : IsValid s) (i : UserId) (user : RegisteredUser) (c : Bytes)
    (ch : Channel) where
  leaves :
      (reason : Option Bytes)
      → get i s.users ≡ some user
      → validate_channel_name user c ≡ ok tt
      → get c s.channels ≡ some ch
      → contains_key i ch.users ≡ true
      → user_leaves_channel s i c reason ≡ record {
        sv = record s { channels = without_member i c ch s.channels };
        sent = send_to_each s.users (Message.part user.fullspec c reason) (keys ch.users);
        result = ok tt;
      }
  unfolding user_leaves_channel
  leaves reason e h g there = ground (
    arith,
    broadcast-AllKnown s.users (Message.part user.fullspec c reason) (keys ch.users)
        (keys-AllKnown s.users ch.users (v.channels_valid c ch g).known),
  )

  -- In a valid state, when a registered user leaves a channel with a valid name of which it is a
  -- member, the PART is sent to all members, itself included, it is no member afterwards, and no other
  -- membership changes.
  pub user_leaves_channel-mode_in :
      (reason : Option Bytes)
      → get i s.users ≡ some user
      → validate_channel_name user c ≡ ok tt
      → get c s.channels ≡ some ch
      → contains_key i ch.users ≡ true
      → ((user_leaves_channel s i c reason).sent
          ≡ send_to_each s.users (Message.part user.fullspec c reason) (keys ch.users))
        × (mode_in (user_leaves_channel s i c reason).sv c i ≡ none)
        × ((d : Bytes) (j : UserId)
            → (eq_ignore_ascii_case c d ≡ false) ⊎ (j ≢ i)
            → mode_in (user_leaves_channel s i c reason).sv d j ≡ mode_in s d j)
  user_leaves_channel-mode_in reason e h g there = rw (leaves reason e h g there) (
    refl,
    ground (arith, without_member-mode_in s i c c ch i g, channel_id_eq.beq_refl c),
    λ d j other. ground (arith, without_member-mode_in s i c d ch j g, get-congr c d s.channels),
  )
