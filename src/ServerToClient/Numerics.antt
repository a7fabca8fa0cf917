-- ===== src/ServerToClient/Numerics.antt =====
-- The numeric replies of `Message::write_to` (cirque-core/src/server_to_client.rs), each as the chunks
-- that are written to it one after the other.
use cirque.Base.{ℕ, Bool, if◌then◌else◌, Bytes, codes, Option, none, some, List, [], ◌∷◌, ◌++◌}
use cirque.Types.ChannelUserMode.{ChannelUserMode}
use cirque.Types.ChannelMode.{ChannelMode}
use cirque.Types.Topic.{Topic}
use cirque.ServerToClient.{WelcomeConfig, ChannelInfo, UserhostReply, WhoReply, NamesReply}
use cirque.ServerToClient.Decimal.{to_string}

abbrev pub Chunks : Type 0
Chunks = List Bytes

-- `message!(stream, b":", sv, code, client, ..)`
abbrev pub numeric : Bytes → Bytes → Bytes → Chunks → Chunks
numeric sv code client rest = codes ":" ∷ sv ∷ code ∷ client ∷ rest

unfoldable pub write_welcome : Bytes → Bytes → Bytes → WelcomeConfig → List Chunks
write_welcome sv nickname user_fullspec welcome_config =
    numeric sv (codes " 001 ") nickname
      (codes " :Welcome to the Internet Relay Network " ∷ user_fullspec ∷ [])
    ∷ numeric sv (codes " 002 ") nickname
        (codes " :Your host is '" ∷ sv ∷ codes "', running cirque." ∷ [])
    ∷ numeric sv (codes " 003 ") nickname (codes " :This server was created <datetime>." ∷ [])
    ∷ numeric sv (codes " 004 ") nickname (codes " " ∷ sv ∷ codes " 0 a a" ∷ [])
    ∷ (if welcome_config.send_isupport
        then numeric sv (codes " 005 ") nickname
            (codes " CASEMAPPING=rfc7613 :are supported by this server" ∷ [])
          ∷ []
        else [])

-- `@` before an operator, or `+` before one with a voice
abbrev prefix : ChannelUserMode → Chunks
prefix user_mode =
    if user_mode.op then codes "@" ∷ [] else if user_mode.voice then codes "+" ∷ [] else []

write_nicknames : List (Bytes × ChannelUserMode) → Chunks
write_nicknames [] = []
write_nicknames ((nick, user_mode) ∷ []) = prefix user_mode ++ (nick ∷ [])
write_nicknames ((nick, user_mode) ∷ n ∷ ns) =
    prefix user_mode ++ (nick ∷ codes " " ∷ write_nicknames (n ∷ ns))

unfoldable pub end_of_names_line : Bytes → Bytes → Bytes → Chunks
end_of_names_line sv client channel =
    numeric sv (codes " 366 ") client (codes " " ∷ channel ∷ codes " :End of NAMES list" ∷ [])

unfoldable pub write_names : Bytes → Bytes → List NamesReply → List Chunks
unfolding write_nicknames end_of_names_line
write_names sv client [] = []
write_names sv client (r ∷ rs) =
    numeric sv (codes " 353 ") client (
      (if r.channel_mode.secret then codes " @ " else codes " = ")
      ∷ r.channel_name
      ∷ codes " :"
      ∷ write_nicknames r.nicknames)
    ∷ end_of_names_line sv client r.channel_name
    ∷ write_names sv client rs

unfoldable pub write_rpl_topic : Bytes → Bytes → Bytes → Option Topic → List Chunks
unfolding to_string
write_rpl_topic sv client channel none =
    numeric sv (codes " 331 ") client (codes " " ∷ channel ∷ codes " :No topic is set" ∷ []) ∷ []
write_rpl_topic sv client channel (some topic) =
    numeric sv (codes " 332 ") client (codes " " ∷ channel ∷ codes " :" ∷ topic.content ∷ [])
    ∷ numeric sv (codes " 333 ") client (
        codes " " ∷ channel ∷ codes " " ∷ topic.from_nickname ∷ codes " " ∷ to_string topic.ts ∷ [])
    ∷ []

abbrev letter : Bool → Bytes → Chunks
letter flag c = if flag then c ∷ [] else []

unfoldable pub write_channel_mode : Bytes → Bytes → Bytes → ChannelMode → Chunks
write_channel_mode sv client channel mode = numeric sv (codes " 324 ") client (
    codes " "
    ∷ channel
    ∷ codes " +"
    ∷ (letter mode.no_external (codes "n")
        ++ (letter mode.secret (codes "s")
            ++ (letter mode.moderated (codes "m") ++ letter mode.topic_protected (codes "t")))))

write_motd_lines : Bytes → Bytes → List Bytes → List Chunks
write_motd_lines sv client [] =
    numeric sv (codes " 376 ") client (codes " :End of MOTD command" ∷ []) ∷ []
write_motd_lines sv client (line ∷ lines) =
    numeric sv (codes " 372 ") client (codes " :- " ∷ line ∷ []) ∷ write_motd_lines sv client lines

unfoldable pub write_motd : Bytes → Bytes → Option (List Bytes) → List Chunks
unfolding write_motd_lines
write_motd sv client none =
    numeric sv (codes " 422 ") client (codes " :MOTD File is missing" ∷ []) ∷ []
write_motd sv client (some motd) =
    numeric sv (codes " 375 ") client (codes " :- <server> Message of the day - " ∷ [])
    ∷ write_motd_lines sv client motd

unfoldable pub write_lusers : Bytes → Bytes → ℕ → ℕ → ℕ → ℕ → ℕ → Bool → List Chunks
unfolding to_string
write_lusers sv client n_operators n_unknown n_channels n_clients n_other_servers extra_info =
    numeric sv (codes " 251 ") client (
      codes " :There are " ∷ to_string n_clients ∷ codes " users and 0 invisible on 1 servers" ∷ [])
    ∷ numeric sv (codes " 252 ") client
        (codes " " ∷ to_string n_operators ∷ codes " :operator(s) online" ∷ [])
    ∷ numeric sv (codes " 253 ") client
        (codes " " ∷ to_string n_unknown ∷ codes " :unknown connection(s)" ∷ [])
    ∷ numeric sv (codes " 254 ") client
        (codes " " ∷ to_string n_channels ∷ codes " :channels formed" ∷ [])
    ∷ numeric sv (codes " 255 ") client (
        codes " :I have "
        ∷ to_string n_clients
        ∷ codes " clients and "
        ∷ to_string n_other_servers
        ∷ codes " servers"
        ∷ [])
    ∷ (if extra_info
        then numeric sv (codes " 265 ") client (
            codes " :Current local users  "
            ∷ to_string n_clients
            ∷ codes " , max "
            ∷ to_string n_clients
            ∷ [])
          ∷ numeric sv (codes " 266 ") client (
              codes " :Current global users  "
              ∷ to_string n_clients
              ∷ codes " , max "
              ∷ to_string n_clients
              ∷ [])
          ∷ []
        else [])

unfoldable pub write_list : Bytes → Bytes → List ChannelInfo → List Chunks
unfolding to_string
write_list sv client [] = numeric sv (codes " 323 ") client (codes " :End of LIST" ∷ []) ∷ []
write_list sv client (info ∷ infos) =
    numeric sv (codes " 322 ") client
      (codes " " ∷ info.name ∷ codes " " ∷ to_string info.count ∷ codes " :" ∷ info.topic ∷ [])
    ∷ write_list sv client infos

userhost_chunks : UserhostReply → Chunks
userhost_chunks r =
    r.nickname
    ∷ (letter r.is_op (codes "*")
        ++ (codes "=" ∷ (if r.is_away then codes "-" else codes "+") ∷ r.hostname ∷ []))

unfoldable pub write_userhosts : List UserhostReply → Chunks
unfolding userhost_chunks
write_userhosts [] = []
write_userhosts (r ∷ []) = userhost_chunks r
write_userhosts (r ∷ s ∷ rs) = userhost_chunks r ++ (codes " " ∷ write_userhosts (s ∷ rs))

unfoldable pub end_of_whois_line : Bytes → Bytes → Bytes → Chunks
end_of_whois_line sv client target_nickname =
    numeric sv (codes " 318 ") client
      (codes " " ∷ target_nickname ∷ codes " :End of /WHOIS list" ∷ [])

unfoldable pub away_line : Bytes → Bytes → Bytes → Bytes → Chunks
away_line sv client target_nickname away_message =
    numeric sv (codes " 301 ") client (codes " " ∷ target_nickname ∷ codes " :" ∷ away_message ∷ [])

unfoldable pub write_whois :
    Bytes → Bytes → Bytes → Option Bytes → Bytes → Bytes → Bytes → List Chunks
unfolding end_of_whois_line away_line
write_whois sv client target_nickname away_message hostname username realname =
    elim away_message [ none ↦ [] | some m ↦ away_line sv client target_nickname m ∷ [] ]
    ++ (numeric sv (codes " 311 ") client (
          codes " "
          ∷ target_nickname
          ∷ codes " "
          ∷ username
          ∷ codes " "
          ∷ hostname
          ∷ codes " * :"
          ∷ realname
          ∷ [])
        ∷ end_of_whois_line sv client target_nickname
        ∷ [])

who_line : Bytes → Bytes → WhoReply → Chunks
who_line sv client r = numeric sv (codes " 352 ") client (
    codes " "
    ∷ elim r.channel [ some channel ↦ channel | none ↦ codes "*" ]
    ∷ codes " "
    ∷ r.username
    ∷ codes " "
    ∷ r.hostname
    ∷ codes " "
    ∷ sv
    ∷ codes " "
    ∷ r.nickname
    ∷ codes " "
    ∷ (if r.is_away then codes "G" else codes "H")
    ∷ (letter r.is_op (codes "*")
        ++ (elim r.channel_user_mode [ some user_mode ↦ prefix user_mode | none ↦ [] ]
            ++ (codes " :0 " ∷ r.realname ∷ []))))

unfoldable pub write_who : Bytes → Bytes → Bytes → List WhoReply → List Chunks
unfolding who_line
write_who sv client mask [] =
    numeric sv (codes " 315 ") client (codes " " ∷ mask ∷ codes " :End of WHO list" ∷ []) ∷ []
write_who sv client mask (r ∷ rs) = who_line sv client r ∷ write_who sv client mask rs
