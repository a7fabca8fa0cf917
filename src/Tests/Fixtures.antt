-- ===== src/Tests/Fixtures.antt =====
-- A small server for the examples: Al and Bo in the secret channel #a, which Al operates, and Cy.
use mathlib.Core.Path.{subst}
use cirque.Base.{true, false, Bytes, codes, none, some, [], ◌∷◌, ◌≡◌, refl, arith}
use cirque.Base.Map.{get, id_eq, channel_id_eq}
use cirque.Types.User.{RegisteredUser, RegisteringUser}
use cirque.Types.Channel.{Channel}
use cirque.Types.Topic
use cirque.Server.State.{ServerStateInner}
use cirque.Server.Nickname.{External}
use cirque.Server.Valid.{IsValid, ChannelIsValid}

-- A cure that changes nothing, and no letters beyond ASCII.
abbrev pub plain : External
plain = record { unicode_alphanumeric = λ _. false; cure = λ nick. some nick }

abbrev pub al : RegisteredUser
al = record {
  user_id = 1;
  nickname = codes "al";
  username = codes "al";
  realname = codes "Al";
  away_message = none;
  fullspec = codes "al!al@hidden";
  hostname = codes "hidden";
  mailbox = 1;
}

abbrev pub bo : RegisteredUser
bo = record {
  user_id = 2;
  nickname = codes "bo";
  username = codes "bo";
  realname = codes "Bo";
  away_message = none;
  fullspec = codes "bo!bo@hidden";
  hostname = codes "hidden";
  mailbox = 2;
}

abbrev pub cy : RegisteredUser
cy = record {
  user_id = 3;
  nickname = codes "cy";
  username = codes "cy";
  realname = codes "Cy";
  away_message = none;
  fullspec = codes "cy!cy@hidden";
  hostname = codes "hidden";
  mailbox = 3;
}

-- A client that has given both names and the password.
abbrev pub di : RegisteringUser
di = record {
  user_id = 4;
  nickname = some (codes "di");
  username = some (codes "di");
  realname = some (codes "Di");
  password = some (codes "pw");
  mailbox = 4;
}

abbrev pub channel_a : Channel
channel_a = record {
  topic = Topic.default;
  users = (1, record { op = true; voice = false }) ∷ (2, record { op = false; voice = false }) ∷ [];
  mode = record { secret = true; topic_protected = true; moderated = false; no_external = true };
}

abbrev pub house : ServerStateInner
house = record {
  users = (1, al) ∷ (2, bo) ∷ (3, cy) ∷ [];
  registering_users = (4, di) ∷ [];
  channels = (codes "#a", channel_a) ∷ [];
  server_name = codes "cirque";
  welcome_config = record { send_isupport = true };
  password = some (codes "pw");
  motd = none;
  default_channel_mode = channel_a.mode;
  message_context = record { server_name = codes "cirque" };
  messages_per_second_limit = 10;
  timeout_config = none;
}

channel_a-IsValid : ChannelIsValid house.users channel_a
unfolding get
channel_a-IsValid = record {
  distinct = (refl, (refl, tt));
  occupied = refl;
  known = λ i h. ground arith;
}

only_channel : (c : Bytes) (ch : Channel) → get c house.channels ≡ some ch → channel_a ≡ ch
unfolding get
only_channel c ch h = ground arith

pub house-IsValid : IsValid house
unfolding get
house-IsValid = record {
  users_distinct = (refl, (refl, (refl, tt)));
  rusers_distinct = (refl, tt);
  channels_distinct = (refl, tt);
  users_keyed = λ i u h. ground arith;
  rusers_keyed = λ i u h. ground arith;
  disjoint = λ i u h. ground arith;
  channels_valid =
      λ c ch h. subst (ChannelIsValid house.users) (only_channel c ch h) channel_a-IsValid;
}
