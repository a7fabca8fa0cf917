-- ===== src/Server/Valid/Departure.antt =====
-- QUIT, lost connections and NICK keep the state valid, and a user that left is nowhere any more.
use cirque.Base.{
  true, false, is_empty, Bytes, some, [], ◌∷◌, ◌++◌, ◌≡◌, refl, inl, inr, arith, Option-cases, ok,
  if◌then◌else◌, All, eq_ignore_ascii_case_refl,
}
use cirque.Base.Map.{
  HashMap, get, remove, contains_key, keys, map_values, retain, modify, id_eq, channel_id_eq,
}
use cirque.Base.Map.Laws.{
  Distinct, get-congr, get-remove, get-map_values, get-retain, remove-Distinct, map_values-Distinct,
  retain-Distinct,
}
use cirque.Types.User.{UserId, RegisteredUser, change_nickname}
use cirque.Types.Channel.{Channel}
use cirque.ServerToClient.{Message}
use cirque.UserState.{RegisteredState}
use cirque.Server.State.{ServerStateInner, Outbox, send}
use cirque.Server.Broadcast.{send_to_each}
use cirque.Server.Nickname.{External, check_nickname}
use cirque.Server.Departure.{left, leave_all, has_members, disconnect, user_changes_nick}
use cirque.Server.Valid.{IsValid, ChannelIsValid, modify_user-IsValid}
use cirque.Server.Valid.Broadcast.{keys-AllKnown, broadcast-AllKnown}

-- A channel without the user.
abbrev pub drop_user : UserId → Channel → Channel
drop_user i ch = record ch { users = remove i ch.users }

remove-absent {ℓ} :
    {V : Type ℓ} (i : UserId) (m : HashMap UserId V) → contains_key i m ≡ false → remove i m ≡ m
unfolding remove get
remove-absent i [] h = refl
remove-absent i ((j, w) ∷ m) h = ground (arith, remove-absent i m)

-- What the members of the channels are told, one channel after the other.
unfoldable pub farewells :
    HashMap UserId RegisteredUser → Message → UserId → HashMap Bytes Channel → Outbox
farewells users message i [] = []
farewells users message i ((name, ch) ∷ channels) =
    let rest = farewells users message i channels in
    if contains_key i ch.users
    then send_to_each users message (keys (remove i ch.users)) ++ rest
    else rest

abbrev pub ChannelsKnown : HashMap UserId RegisteredUser → HashMap Bytes Channel → Type 0
ChannelsKnown users = All (λ (p : Bytes × Channel).
    (j : UserId) → contains_key j p.1.users ≡ true → contains_key j users ≡ true)

-- The loop comes to its end, takes the user out of every channel and tells the other members.
pub leave_all_lem :
    (users : HashMap UserId RegisteredUser) (message : Message) (i : UserId)
    (channels : HashMap Bytes Channel)
    → ChannelsKnown users channels
    → leave_all users message i channels
      ≡ left (map_values (drop_user i) channels) (farewells users message i channels) true
unfolding leave_all farewells map_values
leave_all_lem users message i [] k = refl
leave_all_lem users message i ((name, ch) ∷ channels) k = ground (
  arith,
  leave_all_lem users message i channels k.1,
  remove-absent i ch.users,
  broadcast-AllKnown users message (keys (remove i ch.users)) (
      keys-AllKnown users (remove i ch.users)
        (λ j h. k.0 j (ground (arith, get-remove i j ch.users)))),
)

-- The channels of a valid state, entry by entry.
ChannelsKnown-entries :
    (users : HashMap UserId RegisteredUser) (channels : HashMap Bytes Channel)
    → Distinct channels
    → ((c : Bytes) (ch : Channel) → get c channels ≡ some ch → ChannelIsValid users ch)
    → ChannelsKnown users channels
unfolding get
ChannelsKnown-entries users [] d valid = tt
ChannelsKnown-entries users ((name, ch) ∷ channels) d valid = (
  (valid name ch (ground (arith, eq_ignore_ascii_case_refl name))).known,
  ChannelsKnown-entries users channels d.1
      (λ c other h. valid c other (ground (arith, get-congr name c channels))),
)

pub ChannelsKnown-valid : (s : ServerStateInner) → IsValid s → ChannelsKnown s.users s.channels
ChannelsKnown-valid s v =
    ChannelsKnown-entries s.users s.channels v.channels_distinct v.channels_valid

-- The state without a user, who has left every channel; channels left empty are gone.
abbrev pub without_user : UserId → ServerStateInner → ServerStateInner
without_user i s = record s {
  channels = retain has_members (map_values (drop_user i) s.channels);
  users = remove i s.users;
}

abbrev pub disconnected_user :
    ServerStateInner → UserId → RegisteredUser → Bytes → Bytes → ServerStateInner × Outbox
disconnected_user s i user reason farewell = (
  without_user i s,
  farewells s.users (Message.quit user.fullspec reason) i s.channels
      ++ send user (Message.fatal_error farewell),
)

-- From a valid state a disconnection runs to its end.
pub disconnect_lem :
    (s : ServerStateInner)
    → IsValid s
    → (i : UserId) (user : RegisteredUser) (reason farewell : Bytes) → get i s.users ≡ some user
    → disconnect s i reason farewell ≡ disconnected_user s i user reason farewell
unfolding disconnect
disconnect_lem s v i user reason farewell e = ground (
  arith,
  leave_all_lem s.users (Message.quit user.fullspec reason) i s.channels (ChannelsKnown-valid s v),
)

pub disconnect_cases {ℓ} :
    (P : ServerStateInner → Type ℓ) (s : ServerStateInner)
    → IsValid s
    → (i : UserId) (reason farewell : Bytes) → P s
    → P (without_user i s)
    → P (disconnect s i reason farewell).0
unfolding disconnect
disconnect_cases P s v i reason farewell p q = elim (Option-cases (get i s.users)) [
  | inl e ↦ ground arith
  | inr (user, e) ↦ ground (
    arith,
    leave_all_lem s.users (Message.quit user.fullspec reason) i s.channels
        (ChannelsKnown-valid s v),
  )
]

without_user-ChannelIsValid :
    (s : ServerStateInner)
    → IsValid s
    → (i : UserId) (c : Bytes) (ch : Channel)
    → get c (retain has_members (map_values (drop_user i) s.channels)) ≡ some ch
    → ChannelIsValid (remove i s.users) ch
without_user-ChannelIsValid s v i c ch h = elim (Option-cases (get c s.channels)) [
  | inl e ↦ ground (
    arith,
    get-retain c has_members (map_values (drop_user i) s.channels)
        (map_values-Distinct (drop_user i) s.channels v.channels_distinct),
    get-map_values c (drop_user i) s.channels,
  )
  | inr (old, e) ↦
      let ok = v.channels_valid c old e in
      let was : (ch ≡ drop_user i old) × (is_empty (remove i old.users) ≡ false) = ground (
        arith,
        get-retain c has_members (map_values (drop_user i) s.channels)
            (map_values-Distinct (drop_user i) s.channels v.channels_distinct),
        get-map_values c (drop_user i) s.channels,
      ) in
      rw was.0 (record {
        distinct = remove-Distinct i old.users ok.distinct;
        occupied = was.1;
        known = λ j k. ground (arith, get-remove i j old.users, get-remove i j s.users, ok.known j);
      })
]

pub without_user-IsValid :
    (s : ServerStateInner) → IsValid s → (i : UserId) → IsValid (without_user i s)
without_user-IsValid s v i = record {
  users_distinct = remove-Distinct i s.users v.users_distinct;
  rusers_distinct = v.rusers_distinct;
  channels_distinct =
      retain-Distinct has_members _
        (map_values-Distinct (drop_user i) s.channels v.channels_distinct);
  users_keyed = λ j u h. ground (arith, get-remove i j s.users, v.users_keyed j u);
  rusers_keyed = v.rusers_keyed;
  disjoint = λ j u h. ground (arith, get-remove i j s.users, v.disjoint j u);
  channels_valid = without_user-ChannelIsValid s v i;
}

pub user_changes_nick_cases {ℓ} :
    (P : ServerStateInner → Type ℓ) (x : External) (s : ServerStateInner)
    (user_state : RegisteredState) (nick : Bytes)
    → P s
    → (check_nickname x s nick (some user_state.user_id) ≡ ok tt
        → contains_key user_state.user_id s.users ≡ true
        → P (record s { users = modify user_state.user_id (change_nickname nick) s.users }))
    → P (user_changes_nick x s user_state nick).sv
unfolding user_changes_nick
user_changes_nick_cases P x s user_state nick p q = ground arith

module _ (s : ServerStateInner) (v : IsValid s) where
  pub disconnect-IsValid :
      (i : UserId) (reason farewell : Bytes) → IsValid (disconnect s i reason farewell).0
  disconnect-IsValid i reason farewell =
      disconnect_cases IsValid s v i reason farewell v (without_user-IsValid s v i)

  pub user_changes_nick-IsValid :
      (x : External) (user_state : RegisteredState) (nick : Bytes)
      → IsValid (user_changes_nick x s user_state nick).sv
  unfolding change_nickname
  user_changes_nick-IsValid x user_state nick =
      user_changes_nick_cases IsValid x s user_state nick v
        (λ _ _. modify_user-IsValid s v user_state.user_id (change_nickname nick) (λ u. refl))
