-- ===== src/Server/Departure.antt =====
-- QUIT, lost connections and NICK of registered users (cirque-core/src/server_state.rs).
use cirque.Base.{
  Bool, true, false, not, ◌==◌, if◌then◌else◌, is_empty, Bytes, bytes_eq, codes, Option, none, some,
  unwrap_or, List, [], ◌∷◌, ◌++◌, any, ok, err,
}
use cirque.Base.Map.{HashMap, get, remove, contains_key, modify, retain, keys, id_eq}
use cirque.Types.Channel.{Channel}
use cirque.Types.User.{UserId, RegisteredUser, change_nickname}
use cirque.ServerToClient.{Message}
use cirque.UserState.{RegisteredState, UserState, registered, disconnected, registering}
use cirque.Server.State.{ServerStateInner, Outbox, Reply, send, send_error}
use cirque.Server.Nickname.{External, check_nickname}
use cirque.Server.Broadcast.{broadcast}
use cirque.Server.Registration.{closing_link, ruser_disconnects_suddently}

-- `for channel in self.channels.values_mut()`: the user leaves each channel and its other members
-- are told; the loop ends early at a member that is no registered user.
pub record Left : Type 0 where
  pub channels : HashMap Bytes Channel
  pub sent : Outbox
  pub complete : Bool

abbrev pub left : HashMap Bytes Channel → Outbox → Bool → Left
left channels sent complete = record { channels = channels; sent = sent; complete = complete }

unfoldable pub leave_all :
    HashMap UserId RegisteredUser → Message → UserId → HashMap Bytes Channel → Left
unfolding broadcast
leave_all users message user_id [] = left [] [] true
leave_all users message user_id ((name, channel) ∷ channels) =
    let rest = leave_all users message user_id channels in
    let channel' = (record channel { users = remove user_id channel.users }) in
    let told = broadcast users message (keys channel'.users) in
    if contains_key user_id channel.users
    then (if told.1
        then left ((name, channel') ∷ rest.channels) (told.0 ++ rest.sent) rest.complete
        else left ((name, channel') ∷ channels) told.0 false)
    else left ((name, channel) ∷ rest.channels) rest.sent rest.complete

abbrev pub has_members : Channel → Bool
has_members channel = not (is_empty channel.users)

-- What the two ways to disconnect share; they differ in the reasons that they send.
unfoldable pub disconnect : ServerStateInner → UserId → Bytes → Bytes → ServerStateInner × Outbox
unfolding leave_all
disconnect self user_id reason farewell = elim (get user_id self.users) [
  | none ↦ (self, [])
  | some user ↦
      let gone = leave_all self.users (Message.quit user.fullspec reason) user_id self.channels in
      if gone.complete
      then (
        record self {
          channels = retain has_members gone.channels;
          users = remove user_id self.users;
        },
        gone.sent ++ send user (Message.fatal_error farewell),
      )
      else (record self { channels = gone.channels }, gone.sent)
]

unfoldable pub user_disconnects_voluntarily :
    ServerStateInner → RegisteredState → Option Bytes → Reply
unfolding disconnect
user_disconnects_voluntarily self user_state reason =
    let reason' = unwrap_or reason (codes "Client Quit") in
    let (sv, sent) =
      disconnect self user_state.user_id reason' (closing_link self.server_name reason') in
    record { sv = sv; sent = sent; user_state = disconnected }

unfoldable pub user_disconnects_suddently : ServerStateInner → RegisteredState → Reply
unfolding disconnect
user_disconnects_suddently self user_state =
    let (sv, sent) =
      disconnect self user_state.user_id (codes "connection closed") (codes "connection closed") in
    record { sv = sv; sent = sent; user_state = disconnected }

unfoldable pub dispose_state : ServerStateInner → UserState → ServerStateInner × Outbox
unfolding ruser_disconnects_suddently user_disconnects_suddently
dispose_state self (registering state) =
    let r = ruser_disconnects_suddently self state in (r.sv, r.sent)
dispose_state self (registered state) =
    let r = user_disconnects_suddently self state in (r.sv, r.sent)
dispose_state self disconnected = (self, [])

-- `HashSet::insert`
unfoldable pub set_insert : UserId → List UserId → List UserId
set_insert user_id ids = if any (λ u. u == user_id) ids then ids else user_id ∷ ids

unfoldable pub set_insert_all : List UserId → List UserId → List UserId
unfolding set_insert
set_insert_all [] ids = ids
set_insert_all (u ∷ us) ids = set_insert u (set_insert_all us ids)

-- The user and whoever shares a channel with it.
unfoldable pub neighbours : UserId → HashMap Bytes Channel → List UserId
unfolding set_insert_all
neighbours user_id [] = user_id ∷ []
neighbours user_id ((name, channel) ∷ channels) =
    let rest = neighbours user_id channels in
    if contains_key user_id channel.users then set_insert_all (keys channel.users) rest else rest

abbrev stays : ServerStateInner → Outbox → RegisteredState → Reply
stays sv sent user_state = record { sv = sv; sent = sent; user_state = registered user_state }

-- The part of `user_changes_nick` for a nickname that passed the check.
rename : ServerStateInner → RegisteredState → RegisteredUser → Bytes → Reply
unfolding broadcast neighbours change_nickname
rename sv user_state user new_nick =
    if bytes_eq user.nickname new_nick
    then stays sv [] user_state
    else (let message = Message.nick user.fullspec new_nick in
        let sv' = (record sv {
          users = modify user_state.user_id (change_nickname new_nick) sv.users;
        }) in
        let (sent, complete) =
          broadcast sv'.users message (neighbours user_state.user_id sv'.channels) in
        if complete
        then stays sv' sent user_state
        else record { sv = sv'; sent = sent; user_state = disconnected })

unfoldable pub user_changes_nick : External → ServerStateInner → RegisteredState → Bytes → Reply
unfolding check_nickname send_error rename
user_changes_nick x sv user_state new_nick =
    elim (check_nickname x sv new_nick (some user_state.user_id)) [
      | err error ↦ stays sv (send_error sv user_state.user_id error) user_state
      | ok _ ↦ elim (get user_state.user_id sv.users) [
        | none ↦ record { sv = sv; sent = []; user_state = disconnected }
        | some user ↦ rename sv user_state user new_nick
      ]
    ]
