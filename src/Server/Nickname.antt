-- ===== src/Server/Nickname.antt =====
-- The checks of names in cirque-core/src/server_state.rs, and the lookup of a message's target.
use cirque.Base.{
  ℕ, Bool, true, false, not, ◌&&◌, ◌||◌, ◌==◌, leb, if◌then◌else◌, Bytes, codes, length, any, find,
  eq_ignore_ascii_case, Option, none, some, unwrap_or, [], ◌∷◌, ok, err,
}
use cirque.Base.Map.{get, get_key_value, values, id_eq, channel_id_eq}
use cirque.Base.Utf8.{first_char, is_alphanumeric}
use cirque.Types.User.{UserId, RegisteredUser, RegisteringUser}
use cirque.Types.Channel.{Channel}
use cirque.Error.{Outcome, erroneous_nickname, nickname_in_use, bad_chan_mask}
use cirque.Server.State.{ServerStateInner}

-- What the checks take from outside the program: the Unicode table of `char::is_alphanumeric`
-- beyond ASCII, and `cure!` of the decancer crate, which maps confusable texts to one form.
pub record External : Type 0 where
  pub unicode_alphanumeric : ℕ → Bool
  pub cure : Bytes → Option Bytes

abbrev differs : Option UserId → UserId → Bool
differs none other = true
differs (some user_id) other = not (other == user_id)

-- `let mut client = "*"; if let Some(user_id) ...`
abbrev client_name : ServerStateInner → Option UserId → Bytes
client_name self none = codes "*"
client_name self (some user_id) = elim (get user_id self.users) [
  | none ↦ codes "*"
  | some user ↦ user.nickname
]

module _ (x : External) where
  -- crate::nickname::cure_nickname
  unfoldable pub cure_nickname : Bytes → Option Bytes
  cure_nickname nickname = x.cure nickname

  unfoldable pub nickname_is_valid : Bytes → Bool
  nickname_is_valid nickname = elim (first_char nickname) [
    | some c ↦ (is_alphanumeric x.unicode_alphanumeric c || c == b'_') && leb (length nickname) 16
    | none ↦ false
  ]

  unfoldable pub user_has_same_nick : Option UserId → Bytes → RegisteredUser → Bool
  unfolding cure_nickname
  user_has_same_nick user_id cured u =
      differs user_id u.user_id
      && eq_ignore_ascii_case (unwrap_or (cure_nickname u.nickname) []) cured

  unfoldable pub ruser_has_same_nick : Option UserId → Bytes → RegisteringUser → Bool
  unfolding cure_nickname
  ruser_has_same_nick user_id cured u =
      differs user_id u.user_id
      && eq_ignore_ascii_case (unwrap_or (cure_nickname (unwrap_or u.nickname [])) []) cured

  unfoldable pub check_nickname : ServerStateInner → Bytes → Option UserId → Outcome
  unfolding nickname_is_valid cure_nickname user_has_same_nick ruser_has_same_nick
  check_nickname self nickname user_id =
      let client = client_name self user_id in
      if not (nickname_is_valid nickname)
      then err (erroneous_nickname client nickname)
      else elim (cure_nickname nickname) [
        | none ↦ err (erroneous_nickname client nickname)
        | some cured ↦
            if any (user_has_same_nick user_id cured) (values self.users)
              || any (ruser_has_same_nick user_id cured) (values self.registering_users)
            then err (nickname_in_use client nickname)
            else ok tt
      ]

unfoldable pub validate_channel_name : RegisteredUser → Bytes → Outcome
validate_channel_name user [] = err (bad_chan_mask user.nickname [])
validate_channel_name user (c ∷ cs) =
    if not (c == b'#') then err (bad_chan_mask user.nickname (c ∷ cs)) else ok tt

pub data LookupResult : Type 0 where
  channel : Bytes → Channel → LookupResult
  registered_user : RegisteredUser → LookupResult

unfoldable pub lookup_target : ServerStateInner → Bytes → Option LookupResult
lookup_target self target = elim (get_key_value target self.channels) [
  | some (name, ch) ↦ some (channel name ch)
  | none ↦
      elim (find (λ (u : RegisteredUser). eq_ignore_ascii_case u.nickname target)
        (values self.users)) [ some user ↦ some (registered_user user) | none ↦ none ]
]
