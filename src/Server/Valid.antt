-- ===== src/Server/Valid.antt =====
-- What holds of the server's state between operations, and the changes that keep it.
pub mod Broadcast
pub mod Membership
pub mod Departure
pub mod Registration
pub mod Settings
use cirque.Base.{
  ℕ, Bool, true, false, not, if◌then◌else◌, is_empty, Bytes, Option, none, some, is_some, List, [],
  ◌∷◌, ◌≡◌, refl, sym, inl, inr, arith, Bool-cases, Option-cases,
}
use mathlib.Core.Option
use mathlib.Core.Path.{subst}
use cirque.Base.Map.{HashMap, get, insert, remove, modify, contains_key, id_eq, channel_id_eq}
use cirque.Base.Map.Laws.{
  Distinct, get-insert, get-remove, get-modify, get-congr, insert-Distinct, remove-Distinct,
  modify-Distinct,
}
use cirque.Types.ChannelUserMode.{ChannelUserMode}
use cirque.Types.User.{UserId, RegisteredUser, RegisteringUser}
use cirque.Types.Channel.{Channel}
use cirque.Server.State.{ServerStateInner}

-- A channel has members, and all of them are registered users.
pub record ChannelIsValid (users : HashMap UserId RegisteredUser) (ch : Channel) : Type 0 where
  pub distinct : Distinct ch.users
  pub occupied : is_empty ch.users ≡ false
  pub known : (i : UserId) → contains_key i ch.users ≡ true → contains_key i users ≡ true

-- Every user stands under its id, nobody is both registered and registering, and every channel is
-- valid.
pub record IsValid (s : ServerStateInner) : Type 0 where
  pub users_distinct : Distinct s.users
  pub rusers_distinct : Distinct s.registering_users
  pub channels_distinct : Distinct s.channels
  pub users_keyed : (i : UserId) (u : RegisteredUser) → get i s.users ≡ some u → u.user_id ≡ i
  pub rusers_keyed :
      (i : UserId) (u : RegisteringUser) → get i s.registering_users ≡ some u → u.user_id ≡ i
  pub disjoint :
      (i : UserId) (u : RegisteredUser) → get i s.users ≡ some u → get i s.registering_users ≡ none
  pub channels_valid :
      (c : Bytes) (ch : Channel) → get c s.channels ≡ some ch → ChannelIsValid s.users ch

-- More registered users keep a channel valid.
pub ChannelIsValid-mono :
    (us us' : HashMap UserId RegisteredUser) (ch : Channel)
    → ((i : UserId) → contains_key i us ≡ true → contains_key i us' ≡ true)
    → ChannelIsValid us ch
    → ChannelIsValid us' ch
ChannelIsValid-mono us us' ch more v = record {
  distinct = v.distinct;
  occupied = v.occupied;
  known = λ i h. more i (v.known i h);
}

module _ (s : ServerStateInner) (v : IsValid s) where
  pub insert_channel-IsValid :
      (c : Bytes) (ch : Channel)
      → ChannelIsValid s.users ch
      → IsValid (record s { channels = insert c ch s.channels })
  insert_channel-IsValid c ch ok = record {
    users_distinct = v.users_distinct;
    rusers_distinct = v.rusers_distinct;
    channels_distinct = insert-Distinct c ch s.channels v.channels_distinct;
    users_keyed = v.users_keyed;
    rusers_keyed = v.rusers_keyed;
    disjoint = v.disjoint;
    channels_valid =
        λ d ch' h. ground (arith, get-insert c d ch s.channels, v.channels_valid d ch');
  }

  pub remove_channel-IsValid : (c : Bytes) → IsValid (record s { channels = remove c s.channels })
  remove_channel-IsValid c = record {
    users_distinct = v.users_distinct;
    rusers_distinct = v.rusers_distinct;
    channels_distinct = remove-Distinct c s.channels v.channels_distinct;
    users_keyed = v.users_keyed;
    rusers_keyed = v.rusers_keyed;
    disjoint = v.disjoint;
    channels_valid = λ d ch' h. ground (arith, get-remove c d s.channels, v.channels_valid d ch');
  }

  pub modify_channel-IsValid :
      (c : Bytes) (f : Channel → Channel)
      → ((ch : Channel) → get c s.channels ≡ some ch → ChannelIsValid s.users (f ch))
      → IsValid (record s { channels = modify c f s.channels })
  modify_channel-IsValid c f ok = record {
    users_distinct = v.users_distinct;
    rusers_distinct = v.rusers_distinct;
    channels_distinct = modify-Distinct c f s.channels v.channels_distinct;
    users_keyed = v.users_keyed;
    rusers_keyed = v.rusers_keyed;
    disjoint = v.disjoint;
    channels_valid = λ d ch' h. elim (Option-cases (get d s.channels)) [
      | inl e ↦ ground (arith, get-modify c d f s.channels)
      | inr (ch, e) ↦ ground (
        arith,
        get-modify c d f s.channels,
        v.channels_valid d ch,
        ok ch,
        get-congr c d s.channels,
      )
    ];
  }

  pub modify_user-IsValid :
      (i : UserId) (f : RegisteredUser → RegisteredUser)
      → ((u : RegisteredUser) → (f u).user_id ≡ u.user_id)
      → IsValid (record s { users = modify i f s.users })
  modify_user-IsValid i f same = record {
    users_distinct = modify-Distinct i f s.users v.users_distinct;
    rusers_distinct = v.rusers_distinct;
    channels_distinct = v.channels_distinct;
    users_keyed = λ j u h. elim (Option-cases (get j s.users)) [
      | inl e ↦ ground (arith, get-modify i j f s.users)
      | inr (w, e) ↦ ground (arith, get-modify i j f s.users, v.users_keyed j w, same w)
    ];
    rusers_keyed = v.rusers_keyed;
    disjoint = λ j u h. elim (Option-cases (get j s.users)) [
      | inl e ↦ ground (arith, get-modify i j f s.users)
      | inr (w, e) ↦ ground (arith, get-modify i j f s.users, v.disjoint j w)
    ];
    channels_valid = λ c ch h.
        ChannelIsValid-mono s.users _ ch (λ j k. ground (arith, get-modify i j f s.users))
          (v.channels_valid c ch h);
  }

  pub insert_ruser-IsValid :
      (i : UserId) (u : RegisteringUser)
      → u.user_id ≡ i
      → get i s.users ≡ none
      → IsValid (record s { registering_users = insert i u s.registering_users })
  insert_ruser-IsValid i u e fresh = record {
    users_distinct = v.users_distinct;
    rusers_distinct = insert-Distinct i u s.registering_users v.rusers_distinct;
    channels_distinct = v.channels_distinct;
    users_keyed = v.users_keyed;
    rusers_keyed =
        λ j w h. ground (arith, get-insert i j u s.registering_users, v.rusers_keyed j w);
    disjoint = λ j w h. ground (arith, get-insert i j u s.registering_users, v.disjoint j w);
    channels_valid = v.channels_valid;
  }

  pub remove_ruser-IsValid :
      (i : UserId) → IsValid (record s { registering_users = remove i s.registering_users })
  remove_ruser-IsValid i = record {
    users_distinct = v.users_distinct;
    rusers_distinct = remove-Distinct i s.registering_users v.rusers_distinct;
    channels_distinct = v.channels_distinct;
    users_keyed = v.users_keyed;
    rusers_keyed = λ j w h. ground (arith, get-remove i j s.registering_users, v.rusers_keyed j w);
    disjoint = λ j w h. ground (arith, get-remove i j s.registering_users, v.disjoint j w);
    channels_valid = v.channels_valid;
  }

  pub modify_ruser-IsValid :
      (i : UserId) (f : RegisteringUser → RegisteringUser)
      → ((u : RegisteringUser) → (f u).user_id ≡ u.user_id)
      → IsValid (record s { registering_users = modify i f s.registering_users })
  modify_ruser-IsValid i f same = record {
    users_distinct = v.users_distinct;
    rusers_distinct = modify-Distinct i f s.registering_users v.rusers_distinct;
    channels_distinct = v.channels_distinct;
    users_keyed = v.users_keyed;
    rusers_keyed = λ j u h. elim (Option-cases (get j s.registering_users)) [
      | inl e ↦ ground (arith, get-modify i j f s.registering_users)
      | inr (w, e) ↦
          ground (arith, get-modify i j f s.registering_users, v.rusers_keyed j w, same w)
    ];
    disjoint = λ j w h. ground (arith, get-modify i j f s.registering_users, v.disjoint j w);
    channels_valid = v.channels_valid;
  }

  pub insert_user-IsValid :
      (u : RegisteredUser)
      → get u.user_id s.registering_users ≡ none
      → IsValid (record s { users = insert u.user_id u s.users })
  insert_user-IsValid u gone = record {
    users_distinct = insert-Distinct u.user_id u s.users v.users_distinct;
    rusers_distinct = v.rusers_distinct;
    channels_distinct = v.channels_distinct;
    users_keyed = λ j w h. ground (arith, get-insert u.user_id j u s.users, v.users_keyed j w);
    rusers_keyed = v.rusers_keyed;
    disjoint = λ j w h. ground (arith, get-insert u.user_id j u s.users, v.disjoint j w);
    channels_valid = λ c ch h.
        ChannelIsValid-mono s.users _ ch (λ j k. ground (arith, get-insert u.user_id j u s.users))
          (v.channels_valid c ch h);
  }
