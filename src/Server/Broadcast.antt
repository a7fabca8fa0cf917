-- ===== src/Server/Broadcast.antt =====
-- The loops of cirque-core/src/server_state.rs that send one message to the members of a channel.
use cirque.Base.{
  Bool, true, false, Bytes, Option, none, some, List, [], ◌∷◌, ◌++◌, if◌then◌else◌, not, ◌==◌,
}
use cirque.Base.Map.{HashMap, get, id_eq}
use cirque.Types.User.{UserId, RegisteredUser}
use cirque.Types.ChannelUserMode.{ChannelUserMode}
use cirque.ServerToClient.{Message}
use cirque.Server.State.{Outbox, send}

-- `for user_id in ids { let Some(user) = ... else { return }; user.send(..) }`: what was sent, and
-- whether the loop came to its end.
unfoldable pub broadcast : HashMap UserId RegisteredUser → Message → List UserId → Outbox × Bool
broadcast users message [] = ([], true)
broadcast users message (user_id ∷ ids) =
    let later = broadcast users message ids in
    elim (get user_id users) [
      | none ↦ ([], false)
      | some user ↦ (send user message ++ later.0, later.1)
    ]

-- The loop of JOIN, which also collects the names for the reply; `none` if it returns early.
unfoldable pub announce :
    HashMap UserId RegisteredUser
    → Message
    → HashMap UserId ChannelUserMode
    → Outbox × Option (List (Bytes × ChannelUserMode))
announce users message [] = ([], some [])
announce users message ((user_id, user_mode) ∷ members) =
    let later = announce users message members in
    elim (get user_id users) [
      | none ↦ ([], none)
      | some user ↦ (
        send user message ++ later.0,
        elim later.1 [
          | none ↦ none
          | some nicknames ↦ some ((user.nickname, user_mode) ∷ nicknames)
        ],
      )
    ]

-- The loop of NAMES, which sends nothing.
unfoldable pub collect_nicknames :
    HashMap UserId RegisteredUser
    → HashMap UserId ChannelUserMode
    → Option (List (Bytes × ChannelUserMode))
collect_nicknames users [] = some []
collect_nicknames users ((user_id, user_mode) ∷ members) =
    let later = collect_nicknames users members in
    elim (get user_id users) [
      | none ↦ none
      | some user ↦ elim later [
        | none ↦ none
        | some nicknames ↦ some ((user.nickname, user_mode) ∷ nicknames)
      ]
    ]

-- `.flat_map(|u| self.users.get(u)).for_each(|u| u.send(..))`: an unknown id is passed over.
unfoldable pub send_to_each : HashMap UserId RegisteredUser → Message → List UserId → Outbox
send_to_each users message [] = []
send_to_each users message (user_id ∷ ids) =
    let later = send_to_each users message ids in
    elim (get user_id users) [ none ↦ later | some user ↦ send user message ++ later ]

-- `.filter(|&uid| *uid != user_id)`
unfoldable pub others : UserId → List UserId → List UserId
others user_id [] = []
others user_id (uid ∷ ids) =
    let rest = others user_id ids in if not (uid == user_id) then uid ∷ rest else rest
