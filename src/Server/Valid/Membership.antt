-- ===== src/Server/Valid/Membership.antt =====
-- JOIN, PART and NAMES keep the state valid.
use cirque.Base.{
  true, false, is_empty, Bytes, Option, some, List, [], ◌∷◌, ◌≡◌, refl, sym, inl, inr, arith,
  Bool-cases, Option-cases,
}
use mathlib.Core.Path.{subst}
use cirque.Base.Map.{HashMap, get, insert, remove, contains_key, id_eq, channel_id_eq}
use cirque.Base.Map.Laws.{Distinct, get-insert, get-remove, insert-Distinct, remove-Distinct}
use cirque.Types.User.{UserId, RegisteredUser}
use cirque.Types.ChannelUserMode.{ChannelUserMode}
use cirque.Types.ChannelMode.{ChannelMode}
use cirque.Types.Channel.{Channel}
use cirque.UserState.{RegisteredState}
use cirque.Server.State.{ServerStateInner, Effect, report}
use cirque.Server.Membership.{
  channel_or_default, with_member, user_joins_channel, user_leaves_channel, without_member,
  for_each_channel, user_joins_channels, user_leaves_channels, user_names_channels, done,
  user_names_channel,
}
use cirque.Server.Valid.{
  IsValid, ChannelIsValid, insert_channel-IsValid, remove_channel-IsValid, modify_channel-IsValid,
}

insert_occupied {ℓ} :
    {V : Type ℓ} (i : UserId) (v : V) (m : HashMap UserId V) → is_empty (insert i v m) ≡ false
unfolding insert
insert_occupied i v [] = refl
insert_occupied i v ((j, w) ∷ m) = ground arith

module _ (users : HashMap UserId RegisteredUser) (ch : Channel) (i : UserId) (d : Distinct ch.users)
    (known : (j : UserId) → contains_key j ch.users ≡ true → contains_key j users ≡ true) where
  insert_member-ChannelIsValid :
      (m : ChannelUserMode) (mode : ChannelMode)
      → contains_key i users ≡ true
      → ChannelIsValid users (record ch { users = insert i m ch.users; mode = mode })
  insert_member-ChannelIsValid m mode there = record {
    distinct = insert-Distinct i m ch.users d;
    occupied = insert_occupied i m ch.users;
    known = λ j h. ground (arith, get-insert i j m ch.users, known j);
  }

pub with_member-ChannelIsValid :
    (s : ServerStateInner) (ch : Channel) (i : UserId)
    → Distinct ch.users
    → ((j : UserId) → contains_key j ch.users ≡ true → contains_key j s.users ≡ true)
    → contains_key i s.users ≡ true
    → ChannelIsValid s.users (with_member s ch i)
unfolding with_member
with_member-ChannelIsValid s ch i d known there = elim (Bool-cases (is_empty ch.users)) [
  | inl e ↦ rw e (insert_member-ChannelIsValid s.users ch i d known _ _ there)
  | inr e ↦ rw e (insert_member-ChannelIsValid s.users ch i d known _ _ there)
]

-- What JOIN leaves behind, on each of its branches.
pub user_joins_channel_cases {ℓ} :
    (P : ServerStateInner → Type ℓ) (s : ServerStateInner) (i : UserId) (c : Bytes)
    → P s
    → (contains_key i s.users ≡ true
        → contains_key i (channel_or_default s c).users ≡ true
        → P (record s { channels = insert c (channel_or_default s c) s.channels }))
    → (contains_key i s.users ≡ true
        → contains_key i (channel_or_default s c).users ≡ false
        → P (record s {
          channels = insert c (with_member s (channel_or_default s c) i) s.channels;
        }))
    → P (user_joins_channel s i c).sv
unfolding user_joins_channel
user_joins_channel_cases P s i c p q r = ground arith

-- The channel that JOIN finds or makes has its members among the users.
default-Distinct :
    (s : ServerStateInner) → IsValid s → (c : Bytes) → Distinct (channel_or_default s c).users
default-Distinct s v c = elim (Option-cases (get c s.channels)) [
  | inl e ↦ rw e tt
  | inr (ch, e) ↦ rw e (v.channels_valid c ch e).distinct
]

default_known :
    (s : ServerStateInner)
    → IsValid s
    → (c : Bytes) (j : UserId) → contains_key j (channel_or_default s c).users ≡ true
    → contains_key j s.users ≡ true
unfolding get
default_known s v c j = elim (Option-cases (get c s.channels)) [
  | inl e ↦ rw e (λ h. cc)
  | inr (ch, e) ↦ rw e ((v.channels_valid c ch e).known j)
]

default_found :
    (s : ServerStateInner) (c : Bytes) (j : UserId)
    → contains_key j (channel_or_default s c).users ≡ true
    → get c s.channels ≡ some (channel_or_default s c)
unfolding get
default_found s c j = elim (Option-cases (get c s.channels)) [
  | inl e ↦ rw e (λ h. cc)
  | inr (ch, e) ↦ rw e (λ h. refl)
]

pub user_joins_channel-IsValid :
    (s : ServerStateInner)
    → IsValid s
    → (i : UserId) (c : Bytes) → IsValid (user_joins_channel s i c).sv
user_joins_channel-IsValid s v i c =
    user_joins_channel_cases IsValid s i c v
      (λ there old. insert_channel-IsValid s v c _ (v.channels_valid c _ (default_found s c i old)))
      (λ there new.
        insert_channel-IsValid s v c _
          (with_member-ChannelIsValid s _ i (default-Distinct s v c) (default_known s v c) there))

pub user_leaves_channel_cases {ℓ} :
    (P : ServerStateInner → Type ℓ) (s : ServerStateInner) (i : UserId) (c : Bytes)
    (r : Option Bytes)
    → P s
    → ((ch : Channel)
        → get c s.channels ≡ some ch
        → P (record s { channels = without_member i c ch s.channels }))
    → P (user_leaves_channel s i c r).sv
unfolding user_leaves_channel
user_leaves_channel_cases P s i c r p q = elim (Option-cases (get c s.channels)) [
  | inl e ↦ ground arith
  | inr (ch, e) ↦ ground (arith, q ch)
]

-- Without one of its members a channel is empty or still valid.
remove_member-ChannelIsValid :
    (users : HashMap UserId RegisteredUser) (ch : Channel) (i : UserId)
    → ChannelIsValid users ch
    → is_empty (remove i ch.users) ≡ false
    → ChannelIsValid users (record ch { users = remove i ch.users })
remove_member-ChannelIsValid users ch i v e = record {
  distinct = remove-Distinct i ch.users v.distinct;
  occupied = e;
  known = λ j h. ground (arith, get-remove i j ch.users, v.known j);
}

same_users-ChannelIsValid :
    (users : HashMap UserId RegisteredUser) (ch ch' : Channel)
    → ChannelIsValid users ch'
    → ChannelIsValid users (record ch { users = ch'.users })
same_users-ChannelIsValid users ch ch' v = record {
  distinct = v.distinct;
  occupied = v.occupied;
  known = v.known;
}

pub without_member-IsValid :
    (s : ServerStateInner)
    → IsValid s
    → (i : UserId) (c : Bytes) (ch : Channel) → get c s.channels ≡ some ch
    → IsValid (record s { channels = without_member i c ch s.channels })
unfolding without_member
without_member-IsValid s v i c ch e = elim (Bool-cases (is_empty (remove i ch.users))) [
  | inl gone ↦ rw gone (remove_channel-IsValid s v c)
  | inr stays ↦ rw stays (
      modify_channel-IsValid s v c _ (λ other _.
        same_users-ChannelIsValid s.users other (record ch { users = remove i ch.users })
          (remove_member-ChannelIsValid s.users ch i (v.channels_valid c ch e) stays)))
]

pub user_leaves_channel-IsValid :
    (s : ServerStateInner)
    → IsValid s
    → (i : UserId) (c : Bytes) (r : Option Bytes) → IsValid (user_leaves_channel s i c r).sv
user_leaves_channel-IsValid s v i c r =
    user_leaves_channel_cases IsValid s i c r v (without_member-IsValid s v i c)

pub report-fst : (i : UserId) (e : Effect) → (report i e).0 ≡ e.sv
unfolding report
report-fst i e = ground arith

-- A loop over channels keeps what each of its rounds keeps.
pub for_each_channel_inv {ℓ} :
    (P : ServerStateInner → Type ℓ) (f : ServerStateInner → Bytes → Effect) (i : UserId)
    → ((s : ServerStateInner) (c : Bytes) → P s → P (f s c).sv)
    → (s : ServerStateInner) (cs : List Bytes) → P s
    → P (for_each_channel f i s cs).0
unfolding for_each_channel
for_each_channel_inv P f i step s [] p = p
for_each_channel_inv P f i step s (c ∷ cs) p =
    for_each_channel_inv P f i step (report i (f s c)).0 cs
      (subst P (sym (report-fst i (f s c))) (step s c p))

module _ {ℓ} (P : ServerStateInner → Type ℓ) (user_state : RegisteredState) where
  pub user_joins_channels_inv :
      ((s : ServerStateInner) (c : Bytes) → P s → P (user_joins_channel s user_state.user_id c).sv)
      → (s : ServerStateInner) (cs : List Bytes) → P s
      → P (user_joins_channels s user_state cs).sv
  unfolding user_joins_channels
  user_joins_channels_inv step s cs p =
      for_each_channel_inv P (λ s' c. user_joins_channel s' user_state.user_id c) user_state.user_id
        step s cs p

  pub user_names_channels_inv :
      (s : ServerStateInner) (cs : List Bytes) → P s → P (user_names_channels s user_state cs).sv
  unfolding user_names_channels
  user_names_channels_inv s cs p =
      for_each_channel_inv P (λ s' c. done s' (user_names_channel s' user_state.user_id c))
        user_state.user_id (λ s' c p'. p') s cs p

  pub user_leaves_channels_inv :
      (r : Option Bytes)
      → ((s : ServerStateInner) (c : Bytes)
          → P s
          → P (user_leaves_channel s user_state.user_id c r).sv)
      → (s : ServerStateInner) (cs : List Bytes) → P s
      → P (user_leaves_channels s user_state cs r).sv
  unfolding user_leaves_channels
  user_leaves_channels_inv r step s cs p =
      for_each_channel_inv P (λ s' c. user_leaves_channel s' user_state.user_id c r)
        user_state.user_id step s cs p
