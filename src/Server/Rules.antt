-- ===== src/Server/Rules.antt =====
-- Who may change a channel: the guards of MODE and TOPIC (cirque-core/src/types.rs and
-- cirque-core/src/server_state.rs).
use cirque.Base.{
  ℕ, Bool, true, false, Bytes, eq_ignore_ascii_case, Option, none, some, ◌≡◌, refl, ◌⊎◌, inl, inr,
  arith, ok,
}
use cirque.Base.Map.{get, contains_key, id_eq, channel_id_eq}
use cirque.Base.Map.Laws.{get-modify}
use cirque.Types.User.{UserId, RegisteredUser}
use cirque.Types.ChannelUserMode.{is_op}
use cirque.Types.ChannelMode.{is_topic_protected}
use cirque.Types.Channel.{Channel, ensure_user_can_set_channel_mode, ensure_user_can_set_topic}
use cirque.Server.State.{ServerStateInner}
use cirque.Server.Valid.{IsValid}
use cirque.Server.Settings.{user_changes_channel_mode_inner, write_channel}
use cirque.Server.Topics.{user_sets_topic_inner}
use cirque.Server.Valid.Settings.{user_changes_channel_mode_cases, user_sets_topic_cases}

-- An operator of the channel.
abbrev pub is_op_of : UserId → Channel → Bool
is_op_of i ch = elim (get i ch.users) [ none ↦ false | some m ↦ is_op m ]

mode-is_op :
    (ch : Channel) (user : RegisteredUser) (c : Bytes)
    → ensure_user_can_set_channel_mode ch user c ≡ ok tt
    → is_op_of user.user_id ch ≡ true
unfolding ensure_user_can_set_channel_mode
mode-is_op ch user c h = ground arith

topic-may :
    (ch : Channel) (user : RegisteredUser) (c : Bytes)
    → ensure_user_can_set_topic ch user c ≡ ok tt
    → (contains_key user.user_id ch.users ≡ true)
      × (is_topic_protected ch.mode ≡ true → is_op_of user.user_id ch ≡ true)
unfolding ensure_user_can_set_topic
topic-may ch user c h = ground arith

-- A change to one channel that keeps the members and leaves the rest of the server alone.
pub record OnlyChannel (c : Bytes) (ch : Channel) (s t : ServerStateInner) : Type 0 where
  pub users : t.users ≡ s.users
  pub registering_users : t.registering_users ≡ s.registering_users
  pub others : (d : Bytes) → eq_ignore_ascii_case c d ≡ false → get d t.channels ≡ get d s.channels
  pub changed : Channel
  pub found : get c t.channels ≡ some changed
  pub members : (j : UserId) → contains_key j changed.users ≡ contains_key j ch.users

module _ (s : ServerStateInner) (v : IsValid s) (i : UserId) (c : Bytes) where
  write-OnlyChannel :
      (ch : Channel) (f : Channel → Channel)
      → get c s.channels ≡ some ch
      → ((j : UserId) → contains_key j (f ch).users ≡ contains_key j ch.users)
      → OnlyChannel c ch s (write_channel s c f)
  write-OnlyChannel ch f e same = record {
    users = refl;
    registering_users = refl;
    others = λ d ne. ground (arith, get-modify c d f s.channels);
    changed = f ch;
    found = ground (arith, get-modify c c f s.channels, channel_id_eq.beq_refl c);
    members = same;
  }

  -- In a valid state, MODE changes nothing, or it was asked by an operator of the channel, and then it changes that
  -- one channel only: its members stay, and so do all users and all other channels.
  pub user_changes_channel_mode-OnlyChannel :
      (modechar : Bytes) (param : Option Bytes)
      → ((user_changes_channel_mode_inner s i c modechar param).sv ≡ s)
        ⊎ ((ch : Channel) × (get c s.channels ≡ some ch)
            × (is_op_of i ch ≡ true)
            × OnlyChannel c ch s (user_changes_channel_mode_inner s i c modechar param).sv)
  user_changes_channel_mode-OnlyChannel modechar param =
      user_changes_channel_mode_cases
        (λ t.
          (t ≡ s)
          ⊎ ((ch : Channel) × (get c s.channels ≡ some ch)
              × (is_op_of i ch ≡ true)
              × OnlyChannel c ch s t))
        s i c modechar param (inl refl)
        (λ user ch f e g h k. inr (
          ch,
          g,
          ground (arith, mode-is_op ch user c h, v.users_keyed i user e),
          write-OnlyChannel ch _ g (λ j. refl),
        ))
        (λ user ch f j m e g h k l. inr (
          ch,
          g,
          ground (arith, mode-is_op ch user c h, v.users_keyed i user e),
          write-OnlyChannel ch _ g (λ n. ground (arith, get-modify j n (λ _. f m) ch.users)),
        ))

  -- In a valid state, TOPIC changes nothing, or it was asked by a member, who is an operator where the channel
  -- protects its topic, and then it changes that one channel only.
  pub user_sets_topic-OnlyChannel :
      (now : ℕ) (content : Bytes)
      → ((user_sets_topic_inner now s i c content).sv ≡ s)
        ⊎ ((ch : Channel) × (get c s.channels ≡ some ch)
            × (contains_key i ch.users ≡ true)
            × (is_topic_protected ch.mode ≡ true → is_op_of i ch ≡ true)
            × OnlyChannel c ch s (user_sets_topic_inner now s i c content).sv)
  user_sets_topic-OnlyChannel now content =
      user_sets_topic_cases
        (λ t.
          (t ≡ s)
          ⊎ ((ch : Channel) × (get c s.channels ≡ some ch)
              × (contains_key i ch.users ≡ true)
              × (is_topic_protected ch.mode ≡ true → is_op_of i ch ≡ true)
              × OnlyChannel c ch s t))
        s now i c content (inl refl)
        (λ user ch topic e g h. inr (
          ch,
          g,
          ground (arith, topic-may ch user c h, v.users_keyed i user e),
          ground (arith, topic-may ch user c h, v.users_keyed i user e),
          write-OnlyChannel ch _ g (λ j. refl),
        ))
