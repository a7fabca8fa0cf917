-- ===== src/Server/Valid/Broadcast.antt =====
-- The loops over the members of a channel come to their end when all members are registered.
use cirque.Base.{true, List, [], ◌∷◌, ◌≡◌, refl, arith, All, is_some}
use cirque.Base.Map.{HashMap, get, contains_key, keys, id_eq}
use cirque.Types.User.{UserId, RegisteredUser}
use cirque.Types.ChannelUserMode.{ChannelUserMode}
use cirque.ServerToClient.{Message}
use cirque.Server.Broadcast.{broadcast, announce, collect_nicknames, send_to_each}

-- Each id is that of a registered user.
abbrev pub AllKnown : HashMap UserId RegisteredUser → List UserId → Type 0
AllKnown users = All (λ i. contains_key i users ≡ true)

pub keys-AllKnown {ℓ} :
    {V : Type ℓ} (users : HashMap UserId RegisteredUser) (m : HashMap UserId V)
    → ((i : UserId) → contains_key i m ≡ true → contains_key i users ≡ true)
    → AllKnown users (keys m)
unfolding keys get
keys-AllKnown users [] known = tt
keys-AllKnown users ((i, w) ∷ m) known =
    (known i (ground arith), keys-AllKnown users m (λ j h. known j (ground arith)))

-- The loop that may end early does what the loop that passes over unknown ids does.
pub broadcast-AllKnown :
    (users : HashMap UserId RegisteredUser) (message : Message) (ids : List UserId)
    → AllKnown users ids
    → broadcast users message ids ≡ (send_to_each users message ids, true)
unfolding broadcast send_to_each
broadcast-AllKnown users message [] k = refl
broadcast-AllKnown users message (i ∷ ids) k =
    ground (arith, broadcast-AllKnown users message ids k.1)

pub announce-AllKnown :
    (users : HashMap UserId RegisteredUser) (message : Message)
    (members : HashMap UserId ChannelUserMode)
    → AllKnown users (keys members)
    → announce users message members
      ≡ (send_to_each users message (keys members), collect_nicknames users members)
unfolding announce send_to_each collect_nicknames keys
announce-AllKnown users message [] k = refl
announce-AllKnown users message ((i, m) ∷ members) k =
    ground (arith, announce-AllKnown users message members k.1)

pub collect_nicknames-AllKnown :
    (users : HashMap UserId RegisteredUser) (members : HashMap UserId ChannelUserMode)
    → AllKnown users (keys members)
    → is_some (collect_nicknames users members) ≡ true
unfolding collect_nicknames keys
collect_nicknames-AllKnown users [] k = refl
collect_nicknames-AllKnown users ((i, m) ∷ members) k =
    ground (arith, collect_nicknames-AllKnown users members k.1)
