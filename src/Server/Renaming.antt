-- ===== src/Server/Renaming.antt =====
-- NICK of a registered user (cirque-core/src/server_state.rs): who is told the new name.
use mathlib.Core.Logic.{◌↔◌}
use cirque.Base.{
  ℕ, Bool, true, false, ◌==◌, ◌&&◌, ◌||◌, ◌≤◌, ◌+◌, if◌then◌else◌, Bytes, bytes_eq, some, List, [],
  ◌∷◌, ◌≡◌, refl, ◌⊎◌, inl, inr, arith, ok, Bool-cases, any, eq_ignore_ascii_case_refl,
}
use cirque.Base.Map.{HashMap, get, modify, keys, contains_key, id_eq, channel_id_eq}
use cirque.Base.Map.Laws.{Distinct, get-modify, get-congr}
use cirque.Types.User.{UserId, RegisteredUser, change_nickname}
use cirque.Types.Channel.{Channel}
use cirque.ServerToClient.{Message}
use cirque.UserState.{RegisteredState, registered}
use cirque.Server.State.{ServerStateInner}
use cirque.Server.Broadcast.{send_to_each}
use cirque.Server.Nickname.{External, check_nickname}
use cirque.Server.Departure.{set_insert, set_insert_all, neighbours, user_changes_nick}
use cirque.Server.Valid.{IsValid}
use cirque.Server.Valid.Broadcast.{AllKnown, broadcast-AllKnown}
use cirque.Server.Valid.Departure.{ChannelsKnown, ChannelsKnown-valid}
use cirque.Server.Recipients.{listed, listed-keys}

-- How often an id is in a list.
abbrev pub times : UserId → List UserId → ℕ
times i [] = 0
times i (j ∷ ids) = if j == i then 1 + times i ids else times i ids

any-listed : (i : UserId) (ids : List UserId) → any (λ u. u == i) ids ≡ listed i ids
any-listed i [] = refl
any-listed i (j ∷ ids) = ground (arith, any-listed i ids)

times-listed : (i : UserId) (ids : List UserId) → listed i ids ≡ false → times i ids ≡ 0
times-listed i [] h = refl
times-listed i (j ∷ ids) h = ground (arith, times-listed i ids)

listed-set_insert :
    (j i : UserId) (ids : List UserId)
    → listed j (set_insert i ids) ≡ (if i == j then true else listed j ids)
unfolding set_insert
listed-set_insert j i ids = ground (arith, any-listed i ids)

times-set_insert :
    (j i : UserId) (ids : List UserId) → times j ids ≤ 1 → times j (set_insert i ids) ≤ 1
unfolding set_insert
times-set_insert j i ids h = ground (arith, any-listed i ids, times-listed j ids)

listed-set_insert_all :
    (j : UserId) (us ids : List UserId)
    → listed j (set_insert_all us ids) ≡ (if listed j us then true else listed j ids)
unfolding set_insert_all
listed-set_insert_all j [] ids = refl
listed-set_insert_all j (u ∷ us) ids =
    ground (arith, listed-set_insert j u (set_insert_all us ids), listed-set_insert_all j us ids)

times-set_insert_all :
    (j : UserId) (us ids : List UserId) → times j ids ≤ 1 → times j (set_insert_all us ids) ≤ 1
unfolding set_insert_all
times-set_insert_all j [] ids h = h
times-set_insert_all j (u ∷ us) ids h =
    times-set_insert j u (set_insert_all us ids) (times-set_insert_all j us ids h)

-- Two users are in one channel.
abbrev share : UserId → UserId → HashMap Bytes Channel → Bool
share i j [] = false
share i j ((name, ch) ∷ channels) =
    contains_key i ch.users && contains_key j ch.users || share i j channels

listed-neighbours :
    (i j : UserId) (channels : HashMap Bytes Channel)
    → listed j (neighbours i channels) ≡ (if i == j then true else share i j channels)
unfolding neighbours
listed-neighbours i j [] = ground arith
listed-neighbours i j ((name, ch) ∷ channels) = ground (
  arith,
  listed-neighbours i j channels,
  listed-set_insert_all j (keys ch.users) (neighbours i channels),
  listed-keys j ch.users,
)

times-neighbours :
    (i j : UserId) (channels : HashMap Bytes Channel) → times j (neighbours i channels) ≤ 1
unfolding neighbours
times-neighbours i j [] = ground arith
times-neighbours i j ((name, ch) ∷ channels) = ground (
  arith,
  times-neighbours i j channels,
  times-set_insert_all j (keys ch.users) (neighbours i channels),
)

-- The channels in which two users are together, found by name.
share-mode_in :
    (i j : UserId) (channels : HashMap Bytes Channel)
    → Distinct channels
    → (share i j channels ≡ true) ↔ (
        (c : Bytes) × (ch : Channel) × (get c channels ≡ some ch)
        × (contains_key i ch.users ≡ true)
        × (contains_key j ch.users ≡ true))
unfolding get
share-mode_in i j [] d = (λ h. cc, λ (c, ch, e, p, q). cc)
share-mode_in i j ((name, ch) ∷ channels) d = (
  λ h. elim (Bool-cases (contains_key i ch.users && contains_key j ch.users)) [
    | inl both ↦
        (name, ch, ground (arith, eq_ignore_ascii_case_refl name), ground arith, ground arith)
    | inr apart ↦
        let (c, w, e, p, q) = (share-mode_in i j channels d.1).0 (ground arith) in
        (c, w, ground (arith, get-congr name c channels, d.0), p, q)
  ],
  λ (c, w, e, p, q). elim (Bool-cases (channel_id_eq.beq name c)) [
    | inl same ↦ ground arith
    | inr other ↦
        let rest = (share-mode_in i j channels d.1).1 (c, w, ground arith, p, q) in ground arith
  ],
)

AllKnown-listed :
    (users : HashMap UserId RegisteredUser) (ids : List UserId)
    → ((j : UserId) → listed j ids ≡ true → contains_key j users ≡ true)
    → AllKnown users ids
AllKnown-listed users [] known = tt
AllKnown-listed users (i ∷ ids) known =
    (known i (ground arith), AllKnown-listed users ids (λ j h. known j (ground arith)))

share-known :
    (users : HashMap UserId RegisteredUser) (i j : UserId) (channels : HashMap Bytes Channel)
    → ChannelsKnown users channels
    → share i j channels ≡ true
    → contains_key j users ≡ true
share-known users i j [] k h = cc
share-known users i j ((name, ch) ∷ channels) k h =
    ground (arith, k.0 j, share-known users i j channels k.1)

module _ (x : External) (s : ServerStateInner) (v : IsValid s) (st : RegisteredState)
    (user : RegisteredUser) (nick : Bytes) where
  abbrev renamed : ServerStateInner
  renamed = record s { users = modify st.user_id (change_nickname nick) s.users }

  abbrev told : List UserId
  told = neighbours st.user_id s.channels

  told-AllKnown : get st.user_id s.users ≡ some user → AllKnown renamed.users told
  told-AllKnown e = AllKnown-listed renamed.users told (λ j h. ground (
    arith,
    listed-neighbours st.user_id j s.channels,
    share-known s.users st.user_id j s.channels (ChannelsKnown-valid s v),
    get-modify st.user_id j (change_nickname nick) s.users,
  ))

  user_changes_nick_lem :
      get st.user_id s.users ≡ some user
      → check_nickname x s nick (some st.user_id) ≡ ok tt
      → bytes_eq user.nickname nick ≡ false
      → user_changes_nick x s st nick ≡ record {
        sv = renamed;
        sent = send_to_each renamed.users (Message.nick user.fullspec nick) told;
        user_state = registered st;
      }
  unfolding user_changes_nick
  user_changes_nick_lem e checked new = ground (
    arith,
    broadcast-AllKnown renamed.users (Message.nick user.fullspec nick) told (told-AllKnown e),
  )

  -- Whatever nickname a user of a valid state asks for, its session stays registered.
  pub user_changes_nick-registered :
      get st.user_id s.users ≡ some user
      → (user_changes_nick x s st nick).user_state ≡ registered st
  unfolding user_changes_nick
  user_changes_nick-registered e = ground (
    arith,
    broadcast-AllKnown renamed.users (Message.nick user.fullspec nick) told (told-AllKnown e),
  )

  -- In a valid state, a registered user that takes an admissible nickname, which is not byte for byte
  -- its own, has it afterwards. The NICK is the only message, it carries the user's old full name, and
  -- it is sent once to the user and once to each user who shares a channel with it, and to no others.
  pub user_changes_nick-recipients :
      get st.user_id s.users ≡ some user
      → check_nickname x s nick (some st.user_id) ≡ ok tt
      → bytes_eq user.nickname nick ≡ false
      → (get st.user_id (user_changes_nick x s st nick).sv.users ≡ some (change_nickname nick user))
        × ((user_changes_nick x s st nick).user_state ≡ registered st)
        × (ids : List UserId) × ((user_changes_nick x s st nick).sent
            ≡ send_to_each
                (user_changes_nick x s st nick).sv.users
                (Message.nick user.fullspec nick)
                ids)
        × ((j : UserId) → times j ids ≤ 1)
        × ((j : UserId)
            → (listed j ids ≡ true) ↔ (
                (st.user_id ≡ j)
                ⊎ ((c : Bytes) × (ch : Channel) × (get c s.channels ≡ some ch)
                    × (contains_key st.user_id ch.users ≡ true)
                    × (contains_key j ch.users ≡ true))))
  user_changes_nick-recipients e checked new = rw (user_changes_nick_lem e checked new) (
    ground (arith, get-modify st.user_id st.user_id (change_nickname nick) s.users),
    refl,
    told,
    refl,
    λ j. times-neighbours st.user_id j s.channels,
    λ j.
        let together = share-mode_in st.user_id j s.channels v.channels_distinct in
        (
          λ h. elim (Bool-cases (st.user_id == j)) [
            | inl same ↦ inl (ground arith)
            | inr other ↦
                inr (together.0 (ground (arith, listed-neighbours st.user_id j s.channels)))
          ],
          λ h. elim h [
            | inl same ↦ ground (arith, listed-neighbours st.user_id j s.channels)
            | inr both ↦
                let shared = together.1 both in
                ground (arith, listed-neighbours st.user_id j s.channels)
          ],
        ),
  )
