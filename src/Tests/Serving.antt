-- ===== src/Tests/Serving.antt =====
-- The theorems about the operations of the server, at the small server of Fixtures.
use cirque.Base.{
  true, false, codes, none, some, [], ◌≡◌, refl, ok, err, arith, All, ◌⊎◌, eq_ignore_ascii_case,
  to_ascii_lowercase,
}
use cirque.Base.Map.{get, get_key_value, contains_key, id_eq, channel_id_eq, values}
use cirque.Types.ChannelMode.{is_topic_protected}
use cirque.Types.Channel.{Channel, ensure_user_can_send_message, ensure_user_can_set_channel_mode}
use cirque.ServerToClient.{Message}
use cirque.UserState.{
  RegisteringState, RegisteredState, registering, registered, disconnected, from_registering_state,
}
use cirque.Timeout
use cirque.Server.State.{Reply, Envelope}
use cirque.Server.Valid.Registration.{passwords_agree}
use cirque.Types.User.{is_ready, from_registering}
use cirque.Server.Membership.{user_joins_channel, user_leaves_channel, user_names_channel}
use cirque.Server.Departure.{disconnect}
use cirque.Server.Messaging.{user_messages_target, user_messages_target_inner, user_notices_target}
use cirque.Error.{ServerStateError}
use cirque.Tests.Together.{al_state}
use cirque.Server.State.{send_error}
use cirque.Server.Settings.{user_changes_channel_mode_inner}
use cirque.Server.Topics.{user_sets_topic_inner}
use cirque.Server.Queries.{user_sends_list_info}
use cirque.Server.Registration.{check_ruser_registration_state}
use cirque.Server.Presence.{mode_in, user_joins_channel-mode_in, disconnect-mode_in}
use cirque.Server.Parting.{user_leaves_channel-mode_in}
use cirque.Server.Recipients.{user_messages_target-recipients}
use cirque.Server.Rules.{
  OnlyChannel, is_op_of, user_changes_channel_mode-OnlyChannel, user_sets_topic-OnlyChannel,
}
use cirque.Server.Privacy.{without_channel, user_names_channel-secret, user_sends_list_info-secret}
use cirque.Server.Notices.{user_notices_target-channel}
use cirque.Server.Voice.{user_changes_channel_mode-devoice}
use cirque.Server.Admission.{check_ruser_registration_state-registered}
use cirque.Tests.Fixtures.{house, house-IsValid, al, bo, cy, di, channel_a}
use cirque.Server.Nickname.{validate_channel_name}

user_joins_channel-mode_in_example :
    mode_in (user_joins_channel house 3 (codes "#A")).sv (codes "#A") 3
    ≡ some (record { op = false; voice = false })
unfolding get validate_channel_name eq_ignore_ascii_case to_ascii_lowercase
user_joins_channel-mode_in_example =
    (user_joins_channel-mode_in house 3 (codes "#A") cy refl refl refl).0

disconnect-mode_in_example :
    mode_in (disconnect house 1 (codes "bye") (codes "bye")).0 (codes "#a") 2
    ≡ mode_in house (codes "#a") 2
unfolding get
disconnect-mode_in_example =
    (disconnect-mode_in house house-IsValid 1 al (codes "bye") (codes "bye") refl).4 (codes "#a") 2
      (ground arith)

user_leaves_channel-mode_in_example :
    mode_in (user_leaves_channel house 2 (codes "#a") none).sv (codes "#a") 2 ≡ none
unfolding get validate_channel_name eq_ignore_ascii_case to_ascii_lowercase
user_leaves_channel-mode_in_example =
    (user_leaves_channel-mode_in house house-IsValid 2 bo (codes "#a") channel_a none refl refl refl
      refl).1

user_messages_target-recipients_example :
    All
      (λ (e : Envelope). e.message ≡ Message.priv_msg al.fullspec (codes "#a") (codes "hi"))
      (user_messages_target_inner house 1 (codes "#A") (codes "hi")).sent
unfolding get get_key_value eq_ignore_ascii_case to_ascii_lowercase ensure_user_can_send_message
user_messages_target-recipients_example =
    (user_messages_target-recipients house 1 al (codes "#A") (codes "#a") (codes "hi") channel_a
      refl refl refl refl).0

abbrev di_state : RegisteringState
di_state = record { user_id = 4; ping_state = Timeout.new 0 none }

abbrev after_di : Reply
after_di = check_ruser_registration_state house di_state

check_ruser_registration_state-registered_example :
    ((after_di.user_state ≡ registering di_state) × (is_ready di ≡ false) × (after_di.sv ≡ house))
    ⊎ ((is_ready di ≡ true)
        × (get 4 after_di.sv.registering_users ≡ none)
        × (((after_di.user_state ≡ disconnected)
              × (passwords_agree house di ≡ false)
              × (after_di.sv.users ≡ house.users))
            ⊎ ((passwords_agree house di ≡ true)
                × (after_di.user_state ≡ registered (from_registering_state di_state))
                × (get 4 after_di.sv.users ≡ from_registering di))))
unfolding get
check_ruser_registration_state-registered_example =
    check_ruser_registration_state-registered house house-IsValid di_state di refl

user_changes_channel_mode-OnlyChannel_example :
    ((user_changes_channel_mode_inner house 1 (codes "#a") (codes "+m") none).sv ≡ house)
    ⊎ ((ch : Channel) × (get (codes "#a") house.channels ≡ some ch)
        × (is_op_of 1 ch ≡ true)
        × OnlyChannel
            (codes "#a")
            ch
            house
            (user_changes_channel_mode_inner house 1 (codes "#a") (codes "+m") none).sv)
user_changes_channel_mode-OnlyChannel_example =
    user_changes_channel_mode-OnlyChannel house house-IsValid 1 (codes "#a") (codes "+m") none

user_sets_topic-OnlyChannel_example :
    ((user_sets_topic_inner 5 house 1 (codes "#a") (codes "hello")).sv ≡ house)
    ⊎ ((ch : Channel) × (get (codes "#a") house.channels ≡ some ch)
        × (contains_key 1 ch.users ≡ true)
        × (is_topic_protected ch.mode ≡ true → is_op_of 1 ch ≡ true)
        × OnlyChannel
            (codes "#a")
            ch
            house
            (user_sets_topic_inner 5 house 1 (codes "#a") (codes "hello")).sv)
user_sets_topic-OnlyChannel_example =
    user_sets_topic-OnlyChannel house house-IsValid 1 (codes "#a") 5 (codes "hello")

user_names_channel-secret_example :
    user_names_channel house 3 (codes "#a")
    ≡ user_names_channel (without_channel (codes "#a") house) 3 (codes "#a")
unfolding get eq_ignore_ascii_case to_ascii_lowercase
user_names_channel-secret_example =
    user_names_channel-secret house (codes "#a") channel_a 3 refl refl refl

abbrev cy_state : RegisteredState
cy_state = record { user_id = 3; ping_state = Timeout.new 0 none }

user_sends_list_info-secret_example :
    (user_sends_list_info house cy_state 0 none none).sent
    ≡ (user_sends_list_info (without_channel (codes "#a") house) cy_state 0 none none).sent
unfolding get eq_ignore_ascii_case to_ascii_lowercase
user_sends_list_info-secret_example =
    user_sends_list_info-secret house (codes "#a") channel_a house-IsValid cy_state 0 none none refl
      refl refl

user_notices_target-channel_example :
    ((user_messages_target_inner house 1 (codes "#a") (codes "hi")).result ≡ ok tt)
      × (user_notices_target house al_state (codes "#a") (codes "hi")
          ≡ user_messages_target house al_state (codes "#a") (codes "hi"))
    ⊎ ((e : ServerStateError) × ((user_messages_target_inner house 1
            (codes "#a")
            (codes "hi")).result
          ≡ err e)
        × ((user_notices_target house al_state (codes "#a") (codes "hi")).sent ≡ [])
        × ((user_messages_target house al_state (codes "#a") (codes "hi")).sent
            ≡ send_error house 1 e))
unfolding get get_key_value eq_ignore_ascii_case to_ascii_lowercase
user_notices_target-channel_example =
    user_notices_target-channel house al_state al (codes "#a") (codes "#a") (codes "hi") channel_a
      refl refl

user_changes_channel_mode-devoice_example :
    mode_in
      (user_changes_channel_mode_inner house 1 (codes "#a") (codes "-v") (some (codes "bo"))).sv
      (codes "#a")
      2
    ≡ some (record { op = false; voice = true })
unfolding get validate_channel_name eq_ignore_ascii_case to_ascii_lowercase
    ensure_user_can_set_channel_mode values
user_changes_channel_mode-devoice_example =
    user_changes_channel_mode-devoice house 1 al bo (codes "#a") (codes "bo") channel_a
      (record { op = false; voice = false }) refl refl refl refl refl refl
