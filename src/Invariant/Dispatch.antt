-- ===== src/Invariant/Dispatch.antt =====
-- What the dispatch of a message and the tick of a timer keep: whatever the operations keep that
-- change the state. All others leave it as it is.
use mathlib.Core.Path.{subst, sym}
use cirque.Base.{Result-cases, ℕ, Bytes, Option, some, List, ◌≡◌, refl, inl, inr}
use cirque.Timeout.{PingStatus, check_status, on_send_ping, all_good, timeout, need_to_send}
use cirque.Parser.Message.{Message as Parsed}
use cirque.ClientToServer.{Message}
use cirque.ClientToServer.Registry.{try_from}
use cirque.UserState.{
  UserState, RegisteringState, RegisteredState, registering, registered, disconnected,
}
use cirque.Server.State.{ServerStateInner}
use cirque.Server.Nickname.{External}
use cirque.Server.Registration.{
  ruser_uses_password, ruser_uses_nick, ruser_uses_username, ruser_disconnects_voluntarily,
}
use cirque.Server.Membership.{user_joins_channels, user_leaves_channels, user_names_channels}
use cirque.Server.Departure.{user_disconnects_voluntarily, user_changes_nick}
use cirque.Server.Messaging.{user_indicates_away}
use cirque.Server.Settings.{user_changes_channel_mode}
use cirque.Server.Topics.{user_sets_topic}
use cirque.Server.ReadOnly.{
  sv-ruser_sends_invalid_message, sv-ruser_pings, sv-send_ping_to_ruser,
  sv-ruser_sends_unknown_command, sv-ruser_sends_command_but_is_not_registered,
  sv-user_messages_target, sv-user_notices_target, sv-user_asks_channel_mode, sv-user_wants_topic,
  sv-user_pings, sv-send_ping_to_user, sv-user_sends_unknown_command, sv-user_sends_invalid_message,
  sv-user_wants_motd, sv-user_sends_list_info, sv-user_asks_userhosts, sv-user_asks_whois,
  sv-user_asks_who, sv-user_asks_lusers,
}
use cirque.Session.{dispatch_registering, dispatch_registered, handle_message, check_timeout}

-- What the operations of a client that registers have to keep.
pub record KeepsRegistering {ℓ} (P : ServerStateInner → Type ℓ) (x : External)
    (s : ServerStateInner) (st : RegisteringState) : Type ℓ where
  pub same : P s
  pub pass : (p : Bytes) → P (ruser_uses_password s st p).sv
  pub nick : (n : Bytes) → P (ruser_uses_nick x s st n).sv
  pub user : (u r : Bytes) → P (ruser_uses_username s st u r).sv
  pub quit : (r : Option Bytes) → P (ruser_disconnects_voluntarily s st r).sv

-- What the operations of a registered client have to keep.
pub record KeepsRegistered {ℓ} (P : ServerStateInner → Type ℓ) (x : External) (s : ServerStateInner)
    (st : RegisteredState) : Type ℓ where
  pub same : P s
  pub join : (cs : List Bytes) → P (user_joins_channels s st cs).sv
  pub part : (cs : List Bytes) (r : Option Bytes) → P (user_leaves_channels s st cs r).sv
  pub names : (cs : List Bytes) → P (user_names_channels s st cs).sv
  pub nick : (n : Bytes) → P (user_changes_nick x s st n).sv
  pub quit : (r : Option Bytes) → P (user_disconnects_voluntarily s st r).sv
  pub away : (m : Option Bytes) → P (user_indicates_away s st m).sv
  pub mode : (c m : Bytes) (p : Option Bytes) → P (user_changes_channel_mode s st c m p).sv
  pub topic : (now : ℕ) (c t : Bytes) → P (user_sets_topic now s st c t).sv

-- What the operations of a session have to keep.
abbrev pub Keeps {ℓ} :
    (ServerStateInner → Type ℓ) → External → ServerStateInner → UserState → Type ℓ
Keeps P x s (registering st) = KeepsRegistering P x s st
Keeps P x s (registered st) = KeepsRegistered P x s st
Keeps P x s disconnected = P s

module _ {ℓ} (P : ServerStateInner → Type ℓ) (x : External) (s : ServerStateInner) where
  kept : (t : ServerStateInner) → t ≡ s → P s → P t
  kept t e v = subst P (sym e) v

  dispatch_registering-keeps :
      (st : RegisteringState) (m : Message)
      → KeepsRegistering P x s st
      → P (dispatch_registering x s st m).sv
  unfolding dispatch_registering
  dispatch_registering-keeps st (Message.pass p) v = v.pass p
  dispatch_registering-keeps st (Message.nick n) v = v.nick n
  dispatch_registering-keeps st (Message.user u r) v = v.user u r
  dispatch_registering-keeps st (Message.quit r) v = v.quit r
  dispatch_registering-keeps st (Message.ping t) v = kept _ (sv-ruser_pings s st t) v.same
  dispatch_registering-keeps st (Message.unknown c) v =
      kept _ (sv-ruser_sends_unknown_command s st c) v.same
  dispatch_registering-keeps st (Message.priv_msg t c) v =
      kept _ (sv-ruser_sends_command_but_is_not_registered s st) v.same
  dispatch_registering-keeps st _ v = v.same

  dispatch_registered-keeps :
      (now : ℕ) (st : RegisteredState) (m : Message)
      → KeepsRegistered P x s st
      → P (dispatch_registered x now s st m).sv
  unfolding dispatch_registered
  dispatch_registered-keeps now st (Message.join cs) v = v.join cs
  dispatch_registered-keeps now st (Message.names cs) v = v.names cs
  dispatch_registered-keeps now st (Message.nick n) v = v.nick n
  dispatch_registered-keeps now st (Message.part cs r) v = v.part cs r
  dispatch_registered-keeps now st (Message.ask_mode_channel c) v =
      kept _ (sv-user_asks_channel_mode s st c) v.same
  dispatch_registered-keeps now st (Message.change_mode_channel c m p) v = v.mode c m p
  dispatch_registered-keeps now st (Message.ping t) v = kept _ (sv-user_pings s st t) v.same
  dispatch_registered-keeps now st (Message.quit r) v = v.quit r
  dispatch_registered-keeps now st (Message.priv_msg t c) v =
      kept _ (sv-user_messages_target s st t c) v.same
  dispatch_registered-keeps now st (Message.notice t c) v =
      kept _ (sv-user_notices_target s st t c) v.same
  dispatch_registered-keeps now st (Message.set_topic t c) v = v.topic now t c
  dispatch_registered-keeps now st (Message.get_topic t) v =
      kept _ (sv-user_wants_topic s st t) v.same
  dispatch_registered-keeps now st Message.motd v = kept _ (sv-user_wants_motd s st) v.same
  dispatch_registered-keeps now st (Message.away m) v = v.away m
  dispatch_registered-keeps now st (Message.userhost ns) v =
      kept _ (sv-user_asks_userhosts s st ns) v.same
  dispatch_registered-keeps now st (Message.whois n) v = kept _ (sv-user_asks_whois s st n) v.same
  dispatch_registered-keeps now st (Message.who m) v = kept _ (sv-user_asks_who s st m) v.same
  dispatch_registered-keeps now st Message.lusers v = kept _ (sv-user_asks_lusers s st) v.same
  dispatch_registered-keeps now st (Message.unknown c) v =
      kept _ (sv-user_sends_unknown_command s st c) v.same
  dispatch_registered-keeps now st (Message.list cs os) v =
      kept _ (sv-user_sends_list_info s st now cs os) v.same
  dispatch_registered-keeps now st _ v = v.same

  pub handle_message-keeps :
      (now : ℕ) (us : UserState) (m : Parsed) → Keeps P x s us → P (handle_message x now s us m).sv
  unfolding handle_message
  handle_message-keeps now (registering st) m v = elim (Result-cases (try_from m)) [
    | inl (c, e) ↦ rw (e, handle_message) (dispatch_registering-keeps st c v)
    | inr (c, e) ↦ rw (e, handle_message) (kept _ (sv-ruser_sends_invalid_message s st c) v.same)
  ]
  handle_message-keeps now (registered st) m v = elim (Result-cases (try_from m)) [
    | inl (c, e) ↦ rw (e, handle_message) (dispatch_registered-keeps now st c v)
    | inr (c, e) ↦ rw (e, handle_message) (kept _ (sv-user_sends_invalid_message s st c) v.same)
  ]
  handle_message-keeps now disconnected m v = v

  pub check_timeout-keeps :
      (show : ℕ → Bytes) (us : UserState) (now : ℕ) (token : Bytes)
      → Keeps P x s us
      → P (check_timeout show s us now token).sv
  unfolding check_timeout
  check_timeout-keeps show (registering st) now token v = at (check_status st.ping_state now) refl
    where
      at :
          (status : PingStatus)
          → check_status st.ping_state now ≡ status
          → P (check_timeout show s (registering st) now token).sv
      at all_good e = rw (e, check_timeout) v.same
      at (timeout d) e = rw (e, check_timeout) (v.quit (some (show d)))
      at need_to_send e =
          rw (e, check_timeout)
            (kept _
              (sv-send_ping_to_ruser s
                (record st { ping_state = on_send_ping st.ping_state token now }) token)
              v.same)
  check_timeout-keeps show (registered st) now token v = at (check_status st.ping_state now) refl
    where
      at :
          (status : PingStatus)
          → check_status st.ping_state now ≡ status
          → P (check_timeout show s (registered st) now token).sv
      at all_good e = rw (e, check_timeout) v.same
      at (timeout d) e = rw (e, check_timeout) (v.quit (some (show d)))
      at need_to_send e =
          rw (e, check_timeout)
            (kept _
              (sv-send_ping_to_user s
                (record st { ping_state = on_send_ping st.ping_state token now }) token)
              v.same)
  check_timeout-keeps show disconnected now token v = v
