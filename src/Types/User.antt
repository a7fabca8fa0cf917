-- ===== src/Types/User.antt =====
-- `UserID`, `RegisteredUser` and `RegisteringUser` of cirque-core/src/types.rs. A user id is the
-- number that stands for its UUID. A user's `Mailbox` is the sending end of a channel that the
-- session's `MailboxSink` shares: it is a handle here, and the store of mailboxes is in Delivery.
use cirque.Base.{ℕ, Bool, ◌&&◌, Bytes, codes, [], ◌++◌, Option, none, some, is_some, unwrap_or}

abbrev pub UserId : Type 0
UserId = ℕ

abbrev pub MailboxHandle : Type 0
MailboxHandle = ℕ

pub record RegisteredUser : Type 0 where
  pub user_id : UserId
  pub nickname : Bytes
  pub username : Bytes
  pub realname : Bytes
  pub away_message : Option Bytes
  pub fullspec : Bytes
  pub hostname : Bytes
  pub mailbox : MailboxHandle

-- `format!("{}!{}@{}", nickname, username, hostname)`
abbrev pub format_fullspec : Bytes → Bytes → Bytes → Bytes
format_fullspec nickname username hostname =
    nickname ++ (codes "!" ++ (username ++ (codes "@" ++ hostname)))

abbrev pub shown_hostname : RegisteredUser → Bytes
shown_hostname self = self.hostname

abbrev pub is_away : RegisteredUser → Bool
is_away self = is_some self.away_message

unfoldable pub change_nickname : Bytes → RegisteredUser → RegisteredUser
change_nickname new_nick self = record self {
  nickname = new_nick;
  fullspec = format_fullspec new_nick self.username self.hostname;
}

pub record RegisteringUser : Type 0 where
  pub user_id : UserId
  pub nickname : Option Bytes
  pub username : Option Bytes
  pub realname : Option Bytes
  pub password : Option Bytes
  pub mailbox : MailboxHandle

-- `RegisteringUser::new`, at the generated id and the handle of the new mailbox.
unfoldable pub new_registering : UserId → MailboxHandle → RegisteringUser
new_registering user_id mailbox = record {
  user_id = user_id;
  nickname = none;
  username = none;
  realname = none;
  password = none;
  mailbox = mailbox;
}

abbrev pub maybe_nickname : RegisteringUser → Bytes
maybe_nickname self = unwrap_or self.nickname (codes "*")

abbrev pub is_ready : RegisteringUser → Bool
is_ready self = is_some self.nickname && is_some self.username

-- `From<RegisteringUser> for RegisteredUser`; `none` is the failed assertion.
register_with : RegisteringUser → Option Bytes → Option Bytes → Option RegisteredUser
register_with value (some nickname) (some username) = some (record {
  user_id = value.user_id;
  nickname = nickname;
  username = username;
  realname = unwrap_or value.realname [];
  away_message = none;
  fullspec = format_fullspec nickname username (codes "hidden");
  hostname = codes "hidden";
  mailbox = value.mailbox;
})
register_with value none username = none
register_with value (some nickname) none = none

unfoldable pub from_registering : RegisteringUser → Option RegisteredUser
unfolding register_with
from_registering value = register_with value value.nickname value.username
