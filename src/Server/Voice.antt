-- ===== src/Server/Voice.antt =====
-- MODE -v (cirque-core/src/server_state.rs and cirque-core/src/types.rs).
use cirque.Base.{true, false, Bytes, codes, find, some, ◌≡◌, refl, inl, inr, arith, ok, Bool-cases}
use cirque.Base.Map.{get, values, id_eq, channel_id_eq}
use cirque.Base.Map.Laws.{get-modify}
use cirque.Types.User.{UserId, RegisteredUser}
use cirque.Types.ChannelUserMode.{ChannelUserMode, without_voice}
use cirque.Types.Channel.{Channel, ensure_user_can_set_channel_mode}
use cirque.Server.State.{ServerStateInner}
use cirque.Server.Nickname.{validate_channel_name}
use cirque.Server.Presence.{mode_in}
use cirque.Server.Settings.{
  user_changes_channel_mode_inner, apply_change, change_member, mode_change, member_change,
  nickname_is, write_channel, set_user_mode,
}

mode_change-devoice : mode_change (codes "-v") ≡ member_change without_voice
unfolding mode_change
mode_change-devoice = refl

set_user_mode-mode_in :
    (s : ServerStateInner) (c : Bytes) (ch : Channel) (j : UserId) (m n : ChannelUserMode)
    → get c s.channels ≡ some ch
    → get j ch.users ≡ some m
    → mode_in (write_channel s c (set_user_mode j n)) c j ≡ some n
set_user_mode-mode_in s c ch j m n g k = ground (
  arith,
  get-modify c c (set_user_mode j n) s.channels,
  get-modify j j (λ _. n) ch.users,
  channel_id_eq.beq_refl c,
)

module _ (s : ServerStateInner) (user target : RegisteredUser) (c name : Bytes) (ch : Channel)
    (m : ChannelUserMode) where
  change_member-silent :
      find (nickname_is name) (values s.users) ≡ some target
      → get target.user_id ch.users ≡ some m
      → m.voice ≡ true
      → (change_member s user c ch (codes "-v") (some name) without_voice).sv ≡ s
  unfolding change_member without_voice
  change_member-silent t k h = ground arith

  change_member-voiced :
      find (nickname_is name) (values s.users) ≡ some target
      → get target.user_id ch.users ≡ some m
      → m.voice ≡ false
      → (change_member s user c ch (codes "-v") (some name) without_voice).sv
        ≡ write_channel s c (set_user_mode target.user_id (without_voice m))
  unfolding change_member without_voice
  change_member-voiced t k h = ground arith

  change_member-devoice :
      find (nickname_is name) (values s.users) ≡ some target
      → get c s.channels ≡ some ch
      → get target.user_id ch.users ≡ some m
      → mode_in
          (change_member s user c ch (codes "-v") (some name) without_voice).sv
          c
          target.user_id
        ≡ some (record { op = m.op; voice = true })
  unfolding without_voice
  change_member-devoice t g k = elim (Bool-cases m.voice) [
    | inl h ↦ rw (change_member-silent t k h) (ground arith)
    | inr h ↦
        rw (change_member-voiced t k h)
          (set_user_mode-mode_in s c ch target.user_id m (without_voice m) g k)
  ]

-- MODE -v, asked by a registered user who may set the channel's mode, for the nickname of a member,
-- gives that member voice: whatever its mode was, it has voice afterwards, and keeps its other mode.
pub user_changes_channel_mode-devoice :
    (s : ServerStateInner) (i : UserId) (user target : RegisteredUser) (c name : Bytes)
    (ch : Channel) (m : ChannelUserMode)
    → get i s.users ≡ some user
    → validate_channel_name user c ≡ ok tt
    → get c s.channels ≡ some ch
    → ensure_user_can_set_channel_mode ch user c ≡ ok tt
    → find (nickname_is name) (values s.users) ≡ some target
    → get target.user_id ch.users ≡ some m
    → mode_in (user_changes_channel_mode_inner s i c (codes "-v") (some name)).sv c target.user_id
      ≡ some (record { op = m.op; voice = true })
unfolding user_changes_channel_mode_inner apply_change
user_changes_channel_mode-devoice s i user target c name ch m e h g p t k =
    ground (arith, mode_change-devoice, change_member-devoice s user target c name ch m t g k)
