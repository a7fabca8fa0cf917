-- ===== src/Tests/Locking.antt =====
-- The theorem about the two locks of NICK, for a client that has just connected.
use cirque.Base.{codes}
use cirque.Base.Map.{id_eq}
use cirque.UserState
use cirque.Server.State.{ServerStateInner}
use cirque.Server.State
use cirque.Server.Registration.{new_registering_user, set_nickname}
use cirque.Server.Valid.Registration.{updated}
use cirque.Tests.Reaching.{fresh}

abbrev connected : ServerStateInner
connected = (new_registering_user fresh 1 11 0).sv

abbrev named : ServerStateInner
named = updated 1 (set_nickname (codes "al")) connected
