-- ===== src/Server/Valid/Settings.antt =====
-- MODE, TOPIC and AWAY keep the state valid.
use cirque.Base.{
  ℕ, false, is_empty, Bytes, Option, none, some, [], ◌∷◌, ◌≡◌, refl, ◌⊎◌, find, inl, inr, arith,
  Option-cases, ok, err,
}
use cirque.Base.Map.{HashMap, get, values, modify, id_eq, channel_id_eq}
use cirque.Base.Map.Laws.{get-modify, modify-Distinct}
use cirque.Types.ChannelMode.{ChannelMode}
use cirque.Types.ChannelUserMode.{ChannelUserMode}
use cirque.Types.Topic.{Topic}
use cirque.Types.User.{UserId, RegisteredUser}
use cirque.Types.Channel.{Channel, ensure_user_can_set_channel_mode, ensure_user_can_set_topic}
use cirque.Error.{Outcome, ServerStateError}
use cirque.UserState.{RegisteredState}
use cirque.Server.State.{ServerStateInner}
use cirque.Server.Settings.{
  ModeChange, channel_change, member_change, unknown_change, mode_change, change_member,
  change_channel, apply_change, nickname_is, user_changes_channel_mode_inner, set_mode,
  set_user_mode, write_channel,
}
use cirque.Server.Topics.{user_sets_topic_inner, set_topic}
use cirque.Server.Messaging.{set_away, user_indicates_away}
use cirque.Server.Valid.{IsValid, ChannelIsValid, modify_channel-IsValid, modify_user-IsValid}

Outcome-cases : (r : Outcome) → (r ≡ ok tt) ⊎ ((e : ServerStateError) × (r ≡ err e))
Outcome-cases (ok tt) = inl refl
Outcome-cases (err e) = inr (e, refl)

modify_occupied {ℓ} :
    {V : Type ℓ} (i : UserId) (f : V → V) (m : HashMap UserId V)
    → is_empty m ≡ false
    → is_empty (modify i f m) ≡ false
unfolding modify
modify_occupied i f [] h = h
modify_occupied i f ((j, w) ∷ m) h = ground arith

module _ {ℓ} (P : ServerStateInner → Type ℓ) (s : ServerStateInner) where
  change_member_cases :
      (user : RegisteredUser) (c : Bytes) (ch : Channel) (modechar : Bytes) (param : Option Bytes)
      (f : ChannelUserMode → ChannelUserMode)
      → P s
      → ((j : UserId) (m : ChannelUserMode)
          → get j ch.users ≡ some m
          → P (write_channel s c (set_user_mode j (f m))))
      → P (change_member s user c ch modechar param f).sv
  unfolding change_member
  change_member_cases user c ch modechar none f p q = p
  change_member_cases user c ch modechar (some target) f p q =
      elim (Option-cases (find (nickname_is target) (values s.users))) [
        | inl e ↦ ground arith
        | inr (u, e) ↦ elim (Option-cases (get u.user_id ch.users)) [
          | inl g ↦ ground arith
          | inr (m, g) ↦ ground (arith, q u.user_id m)
        ]
      ]

  apply_change_cases :
      (user : RegisteredUser) (c : Bytes) (ch : Channel) (modechar : Bytes) (param : Option Bytes)
      (change : ModeChange)
      → P s
      → ((f : ChannelMode → ChannelMode)
          → change ≡ channel_change f
          → P (write_channel s c (set_mode (f ch.mode))))
      → ((f : ChannelUserMode → ChannelUserMode) (j : UserId) (m : ChannelUserMode)
          → change ≡ member_change f
          → get j ch.users ≡ some m
          → P (write_channel s c (set_user_mode j (f m))))
      → P (apply_change s user c ch modechar param change).sv
  unfolding apply_change change_channel
  apply_change_cases user c ch modechar param (channel_change f) p q r = ground (arith, q f)
  apply_change_cases user c ch modechar param (member_change f) p q r =
      change_member_cases user c ch modechar param f p (λ j m e. r f j m refl e)
  apply_change_cases user c ch modechar param unknown_change p q r = p

  -- What MODE leaves behind: the state as it was, or, for a member that may set the mode, one mode
  -- changed as the mode string asks.
  pub user_changes_channel_mode_cases :
      (i : UserId) (c modechar : Bytes) (param : Option Bytes)
      → P s
      → ((user : RegisteredUser) (ch : Channel) (f : ChannelMode → ChannelMode)
          → get i s.users ≡ some user
          → get c s.channels ≡ some ch
          → ensure_user_can_set_channel_mode ch user c ≡ ok tt
          → mode_change modechar ≡ channel_change f
          → P (write_channel s c (set_mode (f ch.mode))))
      → ((user : RegisteredUser) (ch : Channel) (f : ChannelUserMode → ChannelUserMode) (j : UserId)
            (m : ChannelUserMode)
          → get i s.users ≡ some user
          → get c s.channels ≡ some ch
          → ensure_user_can_set_channel_mode ch user c ≡ ok tt
          → mode_change modechar ≡ member_change f
          → get j ch.users ≡ some m
          → P (write_channel s c (set_user_mode j (f m))))
      → P (user_changes_channel_mode_inner s i c modechar param).sv
  unfolding user_changes_channel_mode_inner
  user_changes_channel_mode_cases i c modechar param p q r = elim (Option-cases (get i s.users)) [
    | inl e ↦ ground arith
    | inr (user, e) ↦ elim (Option-cases (get c s.channels)) [
      | inl g ↦ ground arith
      | inr (ch, g) ↦ allowed user ch e g
    ]
  ]
    where
      allowed :
          (user : RegisteredUser) (ch : Channel)
          → get i s.users ≡ some user
          → get c s.channels ≡ some ch
          → P (user_changes_channel_mode_inner s i c modechar param).sv
      allowed user ch e g = elim (Outcome-cases (ensure_user_can_set_channel_mode ch user c)) [
        | inl h ↦ ground (
          arith,
          apply_change_cases user c ch modechar param (mode_change modechar) p
              (λ f k. q user ch f e g h k) (λ f j m k l. r user ch f j m e g h k l),
        )
        | inr (error, h) ↦ ground arith
      ]

  -- What TOPIC leaves behind.
  pub user_sets_topic_cases :
      (now : ℕ) (i : UserId) (c content : Bytes)
      → P s
      → ((user : RegisteredUser) (ch : Channel) (topic : Topic)
          → get i s.users ≡ some user
          → get c s.channels ≡ some ch
          → ensure_user_can_set_topic ch user c ≡ ok tt
          → P (write_channel s c (set_topic topic)))
      → P (user_sets_topic_inner now s i c content).sv
  unfolding user_sets_topic_inner
  user_sets_topic_cases now i c content p q = elim (Option-cases (get i s.users)) [
    | inl e ↦ ground arith
    | inr (user, e) ↦ elim (Option-cases (get c s.channels)) [
      | inl g ↦ ground arith
      | inr (ch, g) ↦ elim (Outcome-cases (ensure_user_can_set_topic ch user c)) [
        | inl h ↦
            let topic : Topic = (record {
              content = content;
              ts = now;
              from_nickname = user.nickname;
            }) in
            ground (arith, q user ch topic)
        | inr (error, h) ↦ ground arith
      ]
    ]
  ]

  pub user_indicates_away_cases :
      (user_state : RegisteredState) (m : Option Bytes)
      → P s
      → P (record s { users = modify user_state.user_id (set_away m) s.users })
      → P (user_indicates_away s user_state m).sv
  unfolding user_indicates_away
  user_indicates_away_cases user_state m p q = ground arith

module _ (s : ServerStateInner) (v : IsValid s) where
  write_channel-IsValid :
      (c : Bytes) (f : Channel → Channel)
      → ((ch : Channel) → (f ch).users ≡ ch.users)
      → IsValid (write_channel s c f)
  write_channel-IsValid c f same = modify_channel-IsValid s v c f (λ ch e.
      let valid = v.channels_valid c ch e in
      record {
        distinct = rw (same ch) valid.distinct;
        occupied = rw (same ch) valid.occupied;
        known = λ j. rw (same ch) (valid.known j);
      })

  set_user_mode-ChannelIsValid :
      (ch : Channel) (j : UserId) (m : ChannelUserMode)
      → ChannelIsValid s.users ch
      → ChannelIsValid s.users (set_user_mode j m ch)
  set_user_mode-ChannelIsValid ch j m valid = record {
    distinct = modify-Distinct j (λ _. m) ch.users valid.distinct;
    occupied = modify_occupied j (λ _. m) ch.users valid.occupied;
    known = λ i h. ground (arith, get-modify j i (λ _. m) ch.users, valid.known i);
  }

  pub user_changes_channel_mode-IsValid :
      (i : UserId) (c modechar : Bytes) (param : Option Bytes)
      → IsValid (user_changes_channel_mode_inner s i c modechar param).sv
  user_changes_channel_mode-IsValid i c modechar param =
      user_changes_channel_mode_cases IsValid s i c modechar param v
        (λ user ch f _ _ _ _. write_channel-IsValid c (set_mode (f ch.mode)) (λ _. refl))
        (λ user ch f j m _ _ _ _ _.
          modify_channel-IsValid s v c (set_user_mode j (f m))
            (λ other e. set_user_mode-ChannelIsValid other j (f m) (v.channels_valid c other e)))

  pub user_sets_topic-IsValid :
      (now : ℕ) (i : UserId) (c content : Bytes)
      → IsValid (user_sets_topic_inner now s i c content).sv
  user_sets_topic-IsValid now i c content =
      user_sets_topic_cases IsValid s now i c content v
        (λ user ch topic _ _ _. write_channel-IsValid c (set_topic topic) (λ _. refl))

  pub user_indicates_away-IsValid :
      (user_state : RegisteredState) (m : Option Bytes)
      → IsValid (user_indicates_away s user_state m).sv
  user_indicates_away-IsValid user_state m =
      user_indicates_away_cases IsValid s user_state m v
        (modify_user-IsValid s v user_state.user_id (set_away m) (λ u. refl))
