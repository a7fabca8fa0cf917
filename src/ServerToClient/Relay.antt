-- ===== src/ServerToClient/Relay.antt =====
-- The other messages of `Message::write_to` (cirque-core/src/server_to_client.rs): those that say what
-- somebody did, and the short answers.
use cirque.Base.{Bytes, codes, Option, none, some, [], ◌∷◌}
use cirque.Types.Topic.{Topic}
use cirque.Error.{ServerStateError, write_error}
use cirque.ServerToClient.Numerics.{Chunks, numeric}

unfoldable pub write_join : Bytes → Bytes → Bytes → Chunks
write_join sv channel user_fullspec =
    (codes ":" ∷ user_fullspec ∷ codes " JOIN " ∷ channel ∷ [] ∷ [])

unfoldable pub write_nick : Bytes → Bytes → Bytes → Chunks
write_nick sv previous_user_fullspec nickname =
    (codes ":" ∷ previous_user_fullspec ∷ codes " NICK :" ∷ nickname ∷ [])

unfoldable pub write_topic : Bytes → Bytes → Bytes → Topic → Chunks
write_topic sv user_fullspec channel topic =
    (codes ":" ∷ user_fullspec ∷ codes " TOPIC " ∷ channel ∷ codes " :" ∷ topic.content ∷ [])

unfoldable pub write_ping : Bytes → Bytes → Chunks
write_ping sv token = (codes ":" ∷ sv ∷ codes " PING :" ∷ token ∷ [])

unfoldable pub write_pong : Bytes → Bytes → Chunks
write_pong sv token = (codes ":" ∷ sv ∷ codes " PONG " ∷ sv ∷ codes " :" ∷ token ∷ [])

unfoldable pub write_mode : Bytes → Bytes → Bytes → Bytes → Option Bytes → Chunks
write_mode sv user_fullspec target modechar param =
    (codes ":"
      ∷ user_fullspec
      ∷ codes " MODE "
      ∷ target
      ∷ codes " "
      ∷ modechar
      ∷ elim param [ some p ↦ codes " " ∷ p ∷ [] | none ↦ [] ])

unfoldable pub write_priv_msg : Bytes → Bytes → Bytes → Bytes → Chunks
write_priv_msg sv from_user target content =
    (codes ":" ∷ from_user ∷ codes " PRIVMSG " ∷ target ∷ codes " :" ∷ content ∷ [])

unfoldable pub write_notice : Bytes → Bytes → Bytes → Bytes → Chunks
write_notice sv from_user target content =
    (codes ":" ∷ from_user ∷ codes " NOTICE " ∷ target ∷ codes " :" ∷ content ∷ [])

unfoldable pub write_part : Bytes → Bytes → Bytes → Option Bytes → Chunks
write_part sv user_fullspec channel reason =
    (codes ":"
      ∷ user_fullspec
      ∷ codes " PART "
      ∷ channel
      ∷ elim reason [ some r ↦ codes " :" ∷ r ∷ [] | none ↦ [] ])

unfoldable pub write_now_away : Bytes → Bytes → Chunks
write_now_away sv client =
    numeric sv (codes " 306 ") client (codes " :You have been marked as being away" ∷ [])

unfoldable pub write_un_away : Bytes → Bytes → Chunks
write_un_away sv client =
    numeric sv (codes " 305 ") client (codes " :You are no longer marked as being away" ∷ [])

unfoldable pub write_quit : Bytes → Bytes → Bytes → Chunks
write_quit sv user_fullspec reason = (codes ":" ∷ user_fullspec ∷ codes " QUIT :" ∷ reason ∷ [])

unfoldable pub write_fatal_error : Bytes → Bytes → Chunks
write_fatal_error sv reason = (codes ":" ∷ sv ∷ codes " ERROR :" ∷ reason ∷ [])

unfoldable pub write_err : Bytes → ServerStateError → Chunks
unfolding write_error
write_err sv e = (codes ":" ∷ sv ∷ codes " " ∷ write_error e)
