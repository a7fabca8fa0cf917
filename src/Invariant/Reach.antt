-- ===== src/Invariant/Reach.antt =====
-- The steps of the whole server: connections, messages, timers, lost connections and reloads, in any
-- order and from any number of clients.
use cirque.Base.{ℕ, true, Bytes, Option, none, some, List, ◌≡◌, refl}
use cirque.Base.Map.{get, id_eq}
use cirque.Types.User.{UserId, MailboxHandle}
use cirque.Types.ChannelMode.{ChannelMode}
use cirque.Timeout.{TimeoutConfig}
use cirque.Parser.Message.{Message as Parsed}
use cirque.UserState.{UserState, registering, registered, disconnected}
use cirque.ServerToClient.{WelcomeConfig}
use cirque.Server.State.{
  ServerStateInner, new, set_server_name, set_password, set_motd, set_default_channel_mode,
  set_timeout_config, set_messages_per_second_limit,
}
use cirque.Server.Nickname.{External}
use cirque.Server.Nicknames.{nick_at, confusable}
use cirque.Server.NicknameSteps.{same_users-HasNicknames}
use cirque.Server.Registration.{new_registering_user}
use cirque.Server.Departure.{dispose_state}
use cirque.Server.Valid.{IsValid}
use cirque.Session.{handle_message, check_timeout}
use cirque.Session.Locks.{locked, checked, locked-Writes}
use cirque.Invariant.Locks.{Writes-Inv, checked-Inv}
use cirque.Invariant.Dispatch.{Keeps, handle_message-keeps, check_timeout-keeps}
use cirque.Invariant.Kept.{Inv}
use cirque.Invariant.Operating.{
  new_registering_user-Inv, ruser_uses_password-Inv, ruser_uses_username-Inv, ruser_uses_nick-Inv,
  ruser_disconnects_voluntarily-Inv, user_joins_channels-Inv, user_names_channels-Inv,
  user_leaves_channels-Inv, user_disconnects_voluntarily-Inv, user_changes_nick-Inv,
  user_indicates_away-Inv, user_changes_channel_mode-Inv, user_sets_topic-Inv, dispose_state-Inv,
}

-- A setter that the reload of the configuration calls.
pub data Reload : ServerStateInner → ServerStateInner → Type 0 where
  rename : {s : ServerStateInner} (name : Bytes) → Reload s (set_server_name s name)
  protect : {s : ServerStateInner} (password : Option Bytes) → Reload s (set_password s password)
  greet : {s : ServerStateInner} (motd : Option (List Bytes)) → Reload s (set_motd s motd)
  set_defaults :
      {s : ServerStateInner} (mode : ChannelMode) → Reload s (set_default_channel_mode s mode)
  set_timeouts :
      {s : ServerStateInner} (t : Option TimeoutConfig) → Reload s (set_timeout_config s t)
  set_limit : {s : ServerStateInner} (n : ℕ) → Reload s (set_messages_per_second_limit s n)

-- A reload leaves everybody where they are.
pub reload-same :
    {s t : ServerStateInner}
    → Reload s t
    → (t.users ≡ s.users) × (t.registering_users ≡ s.registering_users) × (t.channels ≡ s.channels)
unfolding set_server_name set_password set_motd set_default_channel_mode set_timeout_config
    set_messages_per_second_limit
reload-same (rename name) = (refl, refl, refl)
reload-same (protect password) = (refl, refl, refl)
reload-same (greet motd) = (refl, refl, refl)
reload-same (set_defaults mode) = (refl, refl, refl)
reload-same (set_timeouts t) = (refl, refl, refl)
reload-same (set_limit n) = (refl, refl, refl)

module _ (x : External) where
  Inv-Keeps : (s : ServerStateInner) → Inv x s → (us : UserState) → Keeps (Inv x) x s us
  Inv-Keeps s v (registering st) = record {
    same = v;
    pass = ruser_uses_password-Inv x s v st;
    nick = ruser_uses_nick-Inv x s v st;
    user = ruser_uses_username-Inv x s v st;
    quit = ruser_disconnects_voluntarily-Inv x s v st;
  }
  Inv-Keeps s v (registered st) = record {
    same = v;
    join = user_joins_channels-Inv x s v st;
    part = user_leaves_channels-Inv x s v st;
    names = user_names_channels-Inv x s v st;
    nick = user_changes_nick-Inv x s v st;
    quit = user_disconnects_voluntarily-Inv x s v st;
    away = user_indicates_away-Inv x s v st;
    mode = user_changes_channel_mode-Inv x s v st;
    topic = user_sets_topic-Inv x s v st;
  }
  Inv-Keeps s v disconnected = v

  -- A step of the server: whatever a session does with its state, or a reload of the configuration.
  -- A session's state is any value here, so the steps cover every interleaving of the sessions.
  pub data Step : ServerStateInner → ServerStateInner → Type 0 where
    -- `UserID::generate` gives an id that nobody has.
    connect :
        {s : ServerStateInner} (i : UserId) (mailbox : MailboxHandle) (now : ℕ)
        → get i s.users ≡ none
        → Step s (new_registering_user s i mailbox now).sv
    receive :
        {s : ServerStateInner} (now : ℕ) (us : UserState) (m : Parsed)
        → Step s (handle_message x now s us m).sv
    -- PASS, NICK and USER of a client that registers: what the first lock writes down, and the check
    -- under the second lock. Anything may come in between.
    lock :
        {s t : ServerStateInner} (us : UserState) (m : Parsed) → locked x s us m ≡ some t → Step s t
    check : {s : ServerStateInner} (us : UserState) → Step s (checked s us).sv
    tick :
        {s : ServerStateInner} (show : ℕ → Bytes) (us : UserState) (now : ℕ) (token : Bytes)
        → Step s (check_timeout show s us now token).sv
    close : {s : ServerStateInner} (us : UserState) → Step s (dispose_state s us).0
    reload : {s t : ServerStateInner} → Reload s t → Step s t

  -- The states that a server started by `ServerState::new` can reach.
  pub data Reach : ServerStateInner → Type 0 where
    start :
        (server_name : Bytes) (welcome_config : WelcomeConfig) (motd : Option (List Bytes))
        (password : Option Bytes) (timeout_config : Option TimeoutConfig)
        → Reach (new server_name welcome_config motd password timeout_config)
    next : {s t : ServerStateInner} → Reach s → Step s t → Reach t

  same_users-Inv :
      (s t : ServerStateInner)
      → t.users ≡ s.users
      → t.registering_users ≡ s.registering_users
      → t.channels ≡ s.channels
      → Inv x s
      → Inv x t
  same_users-Inv s t p q r v = record {
    valid = record {
      users_distinct = rw p v.valid.users_distinct;
      rusers_distinct = rw q v.valid.rusers_distinct;
      channels_distinct = rw r v.valid.channels_distinct;
      users_keyed = rw p v.valid.users_keyed;
      rusers_keyed = rw q v.valid.rusers_keyed;
      disjoint = rw (p, q) v.valid.disjoint;
      channels_valid = rw (p, r) v.valid.channels_valid;
    };
    nicknames = same_users-HasNicknames x s v.valid v.nicknames t p q;
  }

  reload-Inv : {s t : ServerStateInner} → Reload s t → Inv x s → Inv x t
  reload-Inv {s = s} {t = t} r v = let (p, q, c) = reload-same r in same_users-Inv s t p q c v

  -- Every step keeps the invariant.
  pub step-Inv : {s t : ServerStateInner} → Step s t → Inv x s → Inv x t
  unfolding set_server_name set_password set_motd set_default_channel_mode set_timeout_config
      set_messages_per_second_limit
  step-Inv (connect {s = s} i mailbox now fresh) v =
      new_registering_user-Inv x s v i mailbox now fresh
  step-Inv (receive {s = s} now us m) v =
      handle_message-keeps (Inv x) x s now us m (Inv-Keeps s v us)
  step-Inv (lock {s = s} {t = t} us m h) v =
      let (st, same, writes, whole) = locked-Writes x 0 s us m t h in Writes-Inv x s st writes v
  step-Inv (check {s = s} us) v = checked-Inv x s v us
  step-Inv (tick {s = s} show us now token) v =
      check_timeout-keeps (Inv x) x s show us now token (Inv-Keeps s v us)
  step-Inv (close {s = s} us) v = dispose_state-Inv x s v us
  step-Inv (reload r) v = reload-Inv r v

  new-Inv :
      (server_name : Bytes) (welcome_config : WelcomeConfig) (motd : Option (List Bytes))
      (password : Option Bytes) (timeout_config : Option TimeoutConfig)
      → Inv x (new server_name welcome_config motd password timeout_config)
  unfolding new get nick_at
  new-Inv server_name welcome_config motd password timeout_config = record {
    valid = record {
      users_distinct = tt;
      rusers_distinct = tt;
      channels_distinct = tt;
      users_keyed = λ i u h. cc;
      rusers_keyed = λ i u h. cc;
      disjoint = λ i u h. cc;
      channels_valid = λ c ch h. cc;
    };
    nicknames = record { unique = λ i j a b p q c. cc; well_formed = λ i a p. cc };
  }

  -- Every reachable state satisfies the invariant.
  pub Reach-Inv : {s : ServerStateInner} → Reach s → Inv x s
  Reach-Inv (start name config motd password t) = new-Inv name config motd password t
  Reach-Inv (next r st) = step-Inv st (Reach-Inv r)

  -- In every state that the server can reach, users stand under their ids, nobody is both registered
  -- and registering, no key occurs twice, and every channel has members, all of them registered.
  pub Reach-IsValid : {s : ServerStateInner} → Reach s → IsValid s
  Reach-IsValid r = (Reach-Inv r).valid

  -- In every state that the server can reach, two ids whose nicknames the program takes for the same
  -- (equal up to ASCII case after the cure of confusable characters) are one id.
  pub Reach-unique :
      {s : ServerStateInner}
      → Reach s
      → (i j : UserId) (a b : Bytes) → nick_at s i ≡ some a
      → nick_at s j ≡ some b
      → confusable x a b ≡ true
      → i ≡ j
  Reach-unique r = (Reach-Inv r).nicknames.unique
