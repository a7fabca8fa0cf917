-- ===== src/Server/Registration.antt =====
-- The operations of a client that has not registered yet (cirque-core/src/server_state.rs).
use cirque.Base.{
  ℕ, false, not, bytes_eq, if◌then◌else◌, Bytes, codes, length, Option, none, some, unwrap_or, [],
  ◌++◌, ok, err,
}
use cirque.Base.Map.{get, insert, remove, modify, id_eq}
use cirque.Types.User.{
  UserId, MailboxHandle, RegisteredUser, RegisteringUser, new_registering, maybe_nickname, is_ready,
  from_registering,
}
use cirque.Error.{
  MessageDecodingError, from_decoding_error_with_client, unknown_command, not_registered,
  passwd_mismatch,
}
use cirque.ServerToClient.{Message}
use cirque.UserState.{
  RegisteringState, UserState, registering, registered, disconnected, from_registering_state,
}
use cirque.UserState
use cirque.Server.State.{ServerStateInner, Outbox, Reply, send, send_registering, send_error}
use cirque.Server.Nickname.{External, check_nickname}

abbrev reply : ServerStateInner → Outbox → UserState → Reply
reply sv sent user_state = record { sv = sv; sent = sent; user_state = user_state }

-- `ServerState::new_registering_user`, at the generated id, the new mailbox and the time.
unfoldable pub new_registering_user : ServerStateInner → UserId → MailboxHandle → ℕ → Reply
unfolding new_registering UserState.new
new_registering_user sv user_id mailbox now =
    reply
      (record sv {
        registering_users = insert user_id (new_registering user_id mailbox) sv.registering_users;
      })
      [] (registering (UserState.new user_id now sv.timeout_config))

-- `user_registers`: LUSERS counts are taken before the user is inserted.
unfoldable pub user_registers : ServerStateInner → RegisteredUser → ServerStateInner × Outbox
user_registers self user = (
  record self { users = insert user.user_id user self.users },
  send user (Message.welcome user.nickname user.fullspec self.welcome_config)
      ++ (send user (
            Message.l_users user.nickname 0 (length self.registering_users) (length self.channels)
              (length self.users) 0 false)
          ++ send user (Message.motd user.nickname self.motd)),
)

-- The end of `check_ruser_registration_state`, for a ready user that was taken out of the map.
register_ready : ServerStateInner → RegisteringState → RegisteringUser → Reply
unfolding user_registers from_registering from_registering_state
register_ready sv user_state user =
    if not (bytes_eq (unwrap_or user.password []) (unwrap_or sv.password []))
    then reply sv (send_registering user (Message.err (passwd_mismatch (maybe_nickname user))))
        disconnected
    else elim (from_registering user) [
      | none ↦ reply sv [] disconnected
      | some new_user ↦
          let (sv', sent) = user_registers sv new_user in
          reply sv' sent (registered (from_registering_state user_state))
    ]

unfoldable pub check_ruser_registration_state : ServerStateInner → RegisteringState → Reply
unfolding register_ready
check_ruser_registration_state sv user_state = elim (get user_state.user_id sv.registering_users) [
  | none ↦ reply sv [] disconnected
  | some user ↦
      if not (is_ready user)
      then reply sv [] (registering user_state)
      else register_ready
          (record sv { registering_users = remove user_state.user_id sv.registering_users })
          user_state user
]

-- `let Some(user) = registering_users.get_mut(&user_id) else { return Disconnected }`, the update
-- of the user, and the check that follows under a second lock. This is the call when nobody comes in
-- between the two; Session/Locks has them one by one.
abbrev update_ruser :
    ServerStateInner → RegisteringState → (RegisteringUser → RegisteringUser) → Reply
update_ruser sv user_state f = elim (get user_state.user_id sv.registering_users) [
  | none ↦ reply sv [] disconnected
  | some user ↦
      check_ruser_registration_state
        (record sv { registering_users = modify user_state.user_id f sv.registering_users })
        user_state
]

abbrev pub set_password : Bytes → RegisteringUser → RegisteringUser
set_password password user = record user { password = some password }

abbrev pub set_nickname : Bytes → RegisteringUser → RegisteringUser
set_nickname nick user = record user { nickname = some nick }

abbrev pub set_names : Bytes → Bytes → RegisteringUser → RegisteringUser
set_names username realname user = record user {
  username = some username;
  realname = some realname;
}

unfoldable pub ruser_uses_password : ServerStateInner → RegisteringState → Bytes → Reply
unfolding check_ruser_registration_state
ruser_uses_password sv user_state password = update_ruser sv user_state (set_password password)

unfoldable pub ruser_uses_nick : External → ServerStateInner → RegisteringState → Bytes → Reply
unfolding check_ruser_registration_state check_nickname send_error
ruser_uses_nick x sv user_state nick = elim (check_nickname x sv nick (some user_state.user_id)) [
  | err error ↦ reply sv (send_error sv user_state.user_id error) (registering user_state)
  | ok _ ↦ update_ruser sv user_state (set_nickname nick)
]

unfoldable pub ruser_uses_username : ServerStateInner → RegisteringState → Bytes → Bytes → Reply
unfolding check_ruser_registration_state
ruser_uses_username sv user_state username realname =
    update_ruser sv user_state (set_names username realname)

-- `let Some(user) = ... else { return Disconnected }; user.send(..)`, nothing else changes.
abbrev answer_ruser : ServerStateInner → RegisteringState → (RegisteringUser → Message) → Reply
answer_ruser sv user_state message = elim (get user_state.user_id sv.registering_users) [
  | none ↦ reply sv [] disconnected
  | some user ↦ reply sv (send_registering user (message user)) (registering user_state)
]

module _ (sv : ServerStateInner) (user_state : RegisteringState) where
  unfoldable pub ruser_sends_invalid_message : MessageDecodingError → Reply
  unfolding from_decoding_error_with_client send_error
  ruser_sends_invalid_message error = elim (get user_state.user_id sv.registering_users) [
    | none ↦ reply sv [] disconnected
    | some user ↦ elim (from_decoding_error_with_client error (maybe_nickname user)) [
      | none ↦ reply sv [] (registering user_state)
      | some e ↦ reply sv (send_error sv user_state.user_id e) (registering user_state)
    ]
  ]

  unfoldable pub ruser_pings : Bytes → Reply
  ruser_pings token = answer_ruser sv user_state (λ user. Message.pong token)

  unfoldable pub send_ping_to_ruser : Bytes → Reply
  send_ping_to_ruser token = answer_ruser sv user_state (λ user. Message.ping token)

  unfoldable pub ruser_sends_unknown_command : Bytes → Reply
  ruser_sends_unknown_command command =
      answer_ruser sv user_state
        (λ user. Message.err (unknown_command (maybe_nickname user) command))

  unfoldable pub ruser_sends_command_but_is_not_registered : Reply
  ruser_sends_command_but_is_not_registered =
      answer_ruser sv user_state (λ user. Message.err (not_registered (maybe_nickname user)))

-- `"Closing Link: <server> (<reason>)"`
abbrev pub closing_link : Bytes → Bytes → Bytes
closing_link server_name reason =
    codes "Closing Link: " ++ (server_name ++ (codes " (" ++ (reason ++ codes ")")))

abbrev drop_ruser : ServerStateInner → RegisteringState → Bytes → Reply
drop_ruser sv user_state reason = elim (get user_state.user_id sv.registering_users) [
  | none ↦ reply sv [] disconnected
  | some user ↦
      reply (record sv { registering_users = remove user_state.user_id sv.registering_users })
        (send_registering user (Message.fatal_error reason)) disconnected
]

unfoldable pub ruser_disconnects_voluntarily :
    ServerStateInner → RegisteringState → Option Bytes → Reply
ruser_disconnects_voluntarily sv user_state reason =
    drop_ruser sv user_state (closing_link sv.server_name (unwrap_or reason (codes "Client Quit")))

unfoldable pub ruser_disconnects_suddently : ServerStateInner → RegisteringState → Reply
ruser_disconnects_suddently sv user_state = drop_ruser sv user_state (codes "connection closed")
