-- ===== src/Invariant/Untouched.antt =====
-- When an operation leaves another client alone: as a user, as one that registers and as a member of
-- channels.
use cirque.Base.{Bool, Bytes, Option, some, is_some, ◌≡◌, ◌≢◌, refl, arith}
use cirque.Base.Map.{HashMap, get, modify, contains_key, id_eq, channel_id_eq}
use cirque.Base.Map.Laws.{get-insert, get-remove, get-modify, get-congr}
use cirque.Types.User.{UserId, RegisteredUser, RegisteringUser}
use cirque.Types.Channel.{Channel}
use cirque.UserState.{RegisteringState}
use cirque.Server.State.{ServerStateInner}
use cirque.Server.Registration.{check_ruser_registration_state}
use cirque.Server.Membership.{
  user_joins_channel, user_leaves_channel, channel_or_default, with_member,
}
use cirque.Server.Valid.{IsValid}
use cirque.Server.Valid.Departure.{without_user}
use cirque.Server.Valid.Registration.{
  without_ruser, moved, updated, from_registering-user_id, check_ruser_registration_state_cases,
}
use cirque.Server.Valid.Membership.{user_joins_channel_cases, user_leaves_channel_cases}
use cirque.Server.Settings.{write_channel}
use cirque.Server.Presence.{
  mode_in, insert-mode_in, default-mode_in, with_member-get, without-mode_in,
}
use cirque.Server.Parting.{without_member-mode_in}

-- Whether a user is a member of a channel.
abbrev pub is_member : ServerStateInner → Bytes → UserId → Bool
is_member s c j = is_some (mode_in s c j)

-- The client with the id is the same in both states: as a user, as one that registers, and as a
-- member of channels. The mode it has in a channel may differ.
pub record Untouched (j : UserId) (s t : ServerStateInner) : Type 0 where
  pub user : get j t.users ≡ get j s.users
  pub ruser : get j t.registering_users ≡ get j s.registering_users
  pub member : (c : Bytes) → is_member t c j ≡ is_member s c j

pub Untouched-refl : (j : UserId) (s : ServerStateInner) → Untouched j s s
Untouched-refl j s = record { user = refl; ruser = refl; member = λ c. refl }

pub Untouched-trans :
    (j : UserId) (s t r : ServerStateInner) → Untouched j s t → Untouched j t r → Untouched j s r
Untouched-trans j s t r a b = record {
  user = cc (a.user, b.user);
  ruser = cc (a.ruser, b.ruser);
  member = λ c. cc (a.member c, b.member c);
}

module _ (s : ServerStateInner) (i j : UserId) (ne : j ≢ i) where
  users-Untouched :
      (us : HashMap UserId RegisteredUser)
      → get j us ≡ get j s.users
      → Untouched j s (record s { users = us })
  users-Untouched us e = record { user = e; ruser = refl; member = λ c. refl }

  rusers-Untouched :
      (us : HashMap UserId RegisteringUser)
      → get j us ≡ get j s.registering_users
      → Untouched j s (record s { registering_users = us })
  rusers-Untouched us e = record { user = refl; ruser = e; member = λ c. refl }

  pub modify_user-Untouched :
      (f : RegisteredUser → RegisteredUser)
      → Untouched j s (record s { users = modify i f s.users })
  modify_user-Untouched f = users-Untouched _ (ground (arith, get-modify i j f s.users))

  pub updated-Untouched : (f : RegisteringUser → RegisteringUser) → Untouched j s (updated i f s)
  updated-Untouched f = rusers-Untouched _ (ground (arith, get-modify i j f s.registering_users))

  pub without_ruser-Untouched : Untouched j s (without_ruser i s)
  without_ruser-Untouched = rusers-Untouched _ (ground (arith, get-remove i j s.registering_users))

  pub moved-Untouched : (u : RegisteredUser) → u.user_id ≡ i → Untouched j s (moved i u s)
  moved-Untouched u e = record {
    user = ground (arith, get-insert u.user_id j u s.users);
    ruser = ground (arith, get-remove i j s.registering_users);
    member = λ c. refl;
  }

  pub without_user-Untouched : IsValid s → Untouched j s (without_user i s)
  without_user-Untouched v = record {
    user = ground (arith, get-remove i j s.users);
    ruser = refl;
    member = λ c. ground (arith, without-mode_in s v i c j);
  }

  pub join-Untouched : (c : Bytes) → Untouched j s (user_joins_channel s i c).sv
  join-Untouched c =
      user_joins_channel_cases (Untouched j s) s i c (Untouched-refl j s)
        (λ _ _. record {
          user = refl;
          ruser = refl;
          member = λ d.
              ground
                (arith, insert-mode_in s c d (channel_or_default s c) j, default-mode_in s c d j);
        })
        (λ _ _. record {
          user = refl;
          ruser = refl;
          member = λ d. ground (
            arith,
            insert-mode_in s c d (with_member s (channel_or_default s c) i) j,
            with_member-get s i c (channel_or_default s c) j,
            default-mode_in s c d j,
          );
        })

  pub part-Untouched :
      (c : Bytes) (r : Option Bytes) → Untouched j s (user_leaves_channel s i c r).sv
  part-Untouched c r =
      user_leaves_channel_cases (Untouched j s) s i c r (Untouched-refl j s) (λ ch e. record {
        user = refl;
        ruser = refl;
        member =
            λ d. ground (arith, without_member-mode_in s i c d ch j e, get-congr c d s.channels);
      })

  pub check_registration-Untouched :
      (st : RegisteringState)
      → st.user_id ≡ i
      → IsValid s
      → Untouched j s (check_ruser_registration_state s st).sv
  check_registration-Untouched st e v =
      check_ruser_registration_state_cases (Untouched j s) s st (Untouched-refl j s)
        (rw e without_ruser-Untouched)
        (λ u w g h _.
          rw e (
            moved-Untouched w (cc (from_registering-user_id u w h, v.rusers_keyed st.user_id u g))))

-- A change of a channel that leaves its members.
pub write_channel-Untouched :
    (s : ServerStateInner) (j : UserId) (c : Bytes) (ch : Channel) (f : Channel → Channel)
    → get c s.channels ≡ some ch
    → contains_key j (f ch).users ≡ contains_key j ch.users
    → Untouched j s (write_channel s c f)
write_channel-Untouched s j c ch f e same = record {
  user = refl;
  ruser = refl;
  member = λ d. ground (arith, get-modify c d f s.channels, get-congr c d s.channels);
}
