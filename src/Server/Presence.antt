-- ===== src/Server/Presence.antt =====
-- Who is where: what JOIN and a disconnection do to the users and to the members of the channels.
use cirque.Base.{
  true, false, if◌then◌else◌, ◌==◌, is_empty, Bytes, eq_ignore_ascii_case, Option, none, some, [],
  ◌∷◌, ◌++◌, ◌≡◌, ◌≢◌, refl, ◌⊎◌, inl, inr, arith, ok, Option-cases,
}
use cirque.Base.Map.{HashMap, get, insert, remove, map_values, id_eq, channel_id_eq}
use cirque.Base.Map.Laws.{
  get-insert, get-remove, get-retain, get-congr, get-map_values, map_values-Distinct,
}
use cirque.Types.User.{UserId, RegisteredUser}
use cirque.Types.ChannelUserMode.{ChannelUserMode}
use cirque.Types.ChannelUserMode
use cirque.Types.Channel.{Channel}
use cirque.ServerToClient.{Message}
use cirque.Server.State.{ServerStateInner, send}
use cirque.Server.Nickname.{validate_channel_name}
use cirque.Server.Membership.{user_joins_channel, channel_or_default, with_member}
use cirque.Server.Departure.{disconnect, has_members}
use cirque.Server.Valid.{IsValid}
use cirque.Server.Valid.Departure.{disconnect_lem, without_user, drop_user, farewells}

-- The mode that a user has in a channel, if it is a member.
abbrev pub mode_in : ServerStateInner → Bytes → UserId → Option ChannelUserMode
mode_in s c i = elim (get c s.channels) [ none ↦ none | some ch ↦ get i ch.users ]

-- Where a channel was written, its members are the new ones, and the other channels are as before.
pub insert-mode_in :
    (s : ServerStateInner) (c d : Bytes) (ch : Channel) (j : UserId)
    → mode_in (record s { channels = insert c ch s.channels }) d j
      ≡ (if eq_ignore_ascii_case c d then get j ch.users else mode_in s d j)
insert-mode_in s c d ch j = ground (arith, get-insert c d ch s.channels)

-- A channel that is not there yet has no members.
pub default-mode_in :
    (s : ServerStateInner) (c d : Bytes) (j : UserId)
    → eq_ignore_ascii_case c d ≡ true
    → mode_in s d j ≡ get j (channel_or_default s c).users
unfolding get
default-mode_in s c d j h = elim (Option-cases (get c s.channels)) [
  | inl e ↦ ground (arith, get-congr c d s.channels)
  | inr (ch, e) ↦ ground (arith, get-congr c d s.channels)
]

module _ (s : ServerStateInner) (i : UserId) (c : Bytes) where
  -- The members of the channel with a new one.
  pub with_member-get :
      (ch : Channel) (j : UserId)
      → get j (with_member s ch i).users ≡ (
          if i == j
          then some (record { op = is_empty ch.users; voice = false })
          else get j ch.users)
  unfolding with_member ChannelUserMode.with_op
  with_member-get ch j = ground (
    arith,
    get-insert i j (ChannelUserMode.with_op ChannelUserMode.default) ch.users,
    get-insert i j ChannelUserMode.default ch.users,
  )

  -- After the JOIN of a new member.
  abbrev joined : ServerStateInner
  joined = record s { channels = insert c (with_member s (channel_or_default s c) i) s.channels }

  joins-new :
      (user : RegisteredUser)
      → get i s.users ≡ some user
      → validate_channel_name user c ≡ ok tt
      → mode_in s c i ≡ none
      → (user_joins_channel s i c).sv ≡ joined
  unfolding user_joins_channel
  joins-new user e h n = ground (arith, default-mode_in s c c i, channel_id_eq.beq_refl c)

module _ (s : ServerStateInner) (i : UserId) (c : Bytes) (user : RegisteredUser) where
  -- A registered user who joins a channel with a valid name, of which it is no member, becomes a member. It is the operator
  -- if it is the first one, and has no mode otherwise. All other memberships, in this channel and in
  -- the others, stay as they were, and so do the users.
  pub user_joins_channel-mode_in :
      get i s.users ≡ some user
      → validate_channel_name user c ≡ ok tt
      → mode_in s c i ≡ none
      → (mode_in (user_joins_channel s i c).sv c i
          ≡ some (record { op = is_empty (channel_or_default s c).users; voice = false }))
        × ((d : Bytes) (j : UserId)
            → (eq_ignore_ascii_case c d ≡ false) ⊎ (j ≢ i)
            → mode_in (user_joins_channel s i c).sv d j ≡ mode_in s d j)
        × ((user_joins_channel s i c).sv.users ≡ s.users)
  user_joins_channel-mode_in e h n = rw (joins-new s i c user e h n) (
    ground (
      arith,
      insert-mode_in s c c (with_member s (channel_or_default s c) i) i,
      channel_id_eq.beq_refl c,
      with_member-get s i c (channel_or_default s c) i,
    ),
    λ d j other. ground (
      arith,
      insert-mode_in s c d (with_member s (channel_or_default s c) i) j,
      with_member-get s i c (channel_or_default s c) j,
      default-mode_in s c d j,
    ),
    refl,
  )

  -- A JOIN of a valid channel name by a registered user who is a member already sends nothing, and no
  -- membership changes.
  user_joins_channel-again :
      get i s.users ≡ some user
      → mode_in s c i ≢ none
      → validate_channel_name user c ≡ ok tt
      → ((user_joins_channel s i c).sent ≡ [])
        × ((d : Bytes) (j : UserId) → mode_in (user_joins_channel s i c).sv d j ≡ mode_in s d j)
  unfolding user_joins_channel
  user_joins_channel-again e n h = (
    ground (arith, default-mode_in s c c i, channel_id_eq.beq_refl c),
    λ d j. ground (
      arith,
      insert-mode_in s c d (channel_or_default s c) j,
      default-mode_in s c d j,
      default-mode_in s c c i,
      channel_id_eq.beq_refl c,
    ),
  )

pub empty-get {ℓ} :
    {V : Type ℓ} (i : UserId) (m : HashMap UserId V) → is_empty m ≡ true → get i m ≡ none
unfolding get
empty-get i [] h = refl
empty-get i (p ∷ m) h = cc

pub without-mode_in :
    (s : ServerStateInner)
    → IsValid s
    → (i : UserId) (c : Bytes) (j : UserId)
    → mode_in (without_user i s) c j ≡ (if i == j then none else mode_in s c j)
without-mode_in s v i c j = elim (Option-cases (get c s.channels)) [
  | inl e ↦ ground (
    arith,
    get-retain c has_members (map_values (drop_user i) s.channels)
        (map_values-Distinct (drop_user i) s.channels v.channels_distinct),
    get-map_values c (drop_user i) s.channels,
  )
  | inr (ch, e) ↦ ground (
    arith,
    get-retain c has_members (map_values (drop_user i) s.channels)
        (map_values-Distinct (drop_user i) s.channels v.channels_distinct),
    get-map_values c (drop_user i) s.channels,
    get-remove i j ch.users,
    empty-get j (remove i ch.users),
  )
]

-- A registered user that disconnects from a valid state is gone: it is no user and in no channel. All
-- others stay as they were, as users and in the modes of their channels, and what is sent is the QUIT
-- to the other members of each of its channels, and then the ERROR to itself.
pub disconnect-mode_in :
    (s : ServerStateInner)
    → IsValid s
    → (i : UserId) (user : RegisteredUser) (reason farewell : Bytes) → get i s.users ≡ some user
    → ((disconnect s i reason farewell).1
        ≡ farewells s.users (Message.quit user.fullspec reason) i s.channels
          ++ send user (Message.fatal_error farewell))
      × (get i (disconnect s i reason farewell).0.users ≡ none)
      × ((c : Bytes) → mode_in (disconnect s i reason farewell).0 c i ≡ none)
      × ((j : UserId) → j ≢ i → get j (disconnect s i reason farewell).0.users ≡ get j s.users)
      × ((c : Bytes) (j : UserId)
          → j ≢ i
          → mode_in (disconnect s i reason farewell).0 c j ≡ mode_in s c j)
disconnect-mode_in s v i user reason farewell e = rw (disconnect_lem s v i user reason farewell e) (
  refl,
  ground (arith, get-remove i i s.users),
  λ c. ground (arith, without-mode_in s v i c i),
  λ j ne. ground (arith, get-remove i j s.users),
  λ c j ne. ground (arith, without-mode_in s v i c j),
)
