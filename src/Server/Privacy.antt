-- ===== src/Server/Privacy.antt =====
-- Secret channels in NAMES and LIST, and the recipients of a message
-- (cirque-core/src/server_state.rs).
use cirque.Base.{
  ℕ, Bool, true, false, Bytes, Option, none, some, List, [], ◌∷◌, keep, ◌≡◌, refl, inl, inr, arith,
  Option-cases,
}
use cirque.Base.Map.{HashMap, get, remove, contains_key, id_eq, channel_id_eq}
use cirque.Base.Map.Laws.{Distinct, get-remove, get-congr}
use cirque.Types.User.{UserId}
use cirque.Types.Channel.{Channel}
use cirque.Types.ChannelMode.{is_secret}
use cirque.ClientToServer.{ListOption}
use cirque.UserState.{RegisteredState}
use cirque.Server.State.{ServerStateInner}
use cirque.Server.Membership.{user_names_channel}
use cirque.Server.Queries.{is_listed, selected_channels, user_sends_list_info}
use cirque.Server.Valid.{IsValid}

absent-remove {ℓ} : {V : Type ℓ} (c : Bytes) (m : HashMap Bytes V) → get c m ≡ none → remove c m ≡ m
unfolding get remove
absent-remove c [] h = refl
absent-remove c ((d, w) ∷ m) h = ground (arith, absent-remove c m)

-- The server without a channel.
abbrev pub without_channel : Bytes → ServerStateInner → ServerStateInner
without_channel c s = record s { channels = remove c s.channels }

-- A channel that does not pass a test may as well not be there.
keep-remove :
    (p : Bytes × Channel → Bool) (c : Bytes) (ch : Channel) (m : HashMap Bytes Channel)
    → ((d : Bytes) → p (d, ch) ≡ false)
    → Distinct m
    → get c m ≡ some ch
    → keep p (remove c m) ≡ keep p m
unfolding get remove
keep-remove p c ch [] unlisted d e = cc
keep-remove p c ch ((n, w) ∷ m) unlisted d e =
    ground
      (arith, keep-remove p c ch m unlisted d.1, unlisted n, absent-remove c m, get-congr n c m)

keep-selected :
    (p : Bytes × Channel → Bool) (c : Bytes) (ch : Channel) (m : HashMap Bytes Channel)
    (names : List Bytes)
    → ((d : Bytes) → p (d, ch) ≡ false)
    → get c m ≡ some ch
    → keep p (selected_channels (remove c m) names) ≡ keep p (selected_channels m names)
unfolding selected_channels
keep-selected p c ch m [] unlisted e = refl
keep-selected p c ch m (n ∷ names) unlisted e = elim (Option-cases (get n m)) [
  | inl g ↦ ground (arith, keep-selected p c ch m names unlisted e, get-remove c n m)
  | inr (w, g) ↦ ground (
    arith,
    keep-selected p c ch m names unlisted e,
    get-remove c n m,
    unlisted n,
    get-congr c n m,
  )
]

module _ (s : ServerStateInner) (c : Bytes) (ch : Channel) where
  -- NAMES on a secret channel tells somebody who is no member nothing: the answer is the one that
  -- is given when there is no such channel.
  pub user_names_channel-secret :
      (i : UserId)
      → get c s.channels ≡ some ch
      → is_secret ch.mode ≡ true
      → contains_key i ch.users ≡ false
      → user_names_channel s i c ≡ user_names_channel (without_channel c s) i c
  unfolding user_names_channel
  user_names_channel-secret i e secret out =
      ground (arith, get-remove c c s.channels, channel_id_eq.beq_refl c)

  is_listed-secret :
      (now : ℕ) (i : UserId) (options : Option (List ListOption)) (d : Bytes)
      → is_secret ch.mode ≡ true
      → contains_key i ch.users ≡ false
      → is_listed now i options (d, ch) ≡ false
  unfolding is_listed
  is_listed-secret now i options d secret out = ground arith

  -- In a valid state, LIST, whatever channels and filters it asks for, sends somebody who is no member of a secret
  -- channel what it would send if there were no such channel.
  pub user_sends_list_info-secret :
      IsValid s
      → (user_state : RegisteredState) (now : ℕ) (names : Option (List Bytes))
        (options : Option (List ListOption))
      → get c s.channels ≡ some ch
      → is_secret ch.mode ≡ true
      → contains_key user_state.user_id ch.users ≡ false
      → (user_sends_list_info s user_state now names options).sent
        ≡ (user_sends_list_info (without_channel c s) user_state now names options).sent
  unfolding user_sends_list_info
  user_sends_list_info-secret v user_state now none options e secret out = ground (
    arith,
    keep-remove (is_listed now user_state.user_id options) c ch s.channels
        (λ d. is_listed-secret now user_state.user_id options d secret out) v.channels_distinct e,
  )
  user_sends_list_info-secret v user_state now (some names) options e secret out = ground (
    arith,
    keep-selected (is_listed now user_state.user_id options) c ch s.channels names
        (λ d. is_listed-secret now user_state.user_id options d secret out) e,
  )
