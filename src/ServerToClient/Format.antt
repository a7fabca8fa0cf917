-- ===== src/ServerToClient/Format.antt =====
-- `Message::write_to` of cirque-core/src/server_to_client.rs: the IRC messages of one message, each
-- as the chunks that are written to it one after the other.
use cirque.Base.{Bytes, codes, List, [], ◌∷◌}
use cirque.ServerToClient.{Message}
use cirque.ServerToClient.Numerics.{
  write_welcome, end_of_names_line, write_names, write_rpl_topic, write_channel_mode, write_motd,
  write_lusers, write_list, write_userhosts, end_of_whois_line, away_line, write_whois, write_who,
  numeric, Chunks,
}
use cirque.ServerToClient.Relay.{
  write_join, write_nick, write_topic, write_ping, write_pong, write_mode, write_priv_msg,
  write_notice, write_part, write_now_away, write_un_away, write_quit, write_fatal_error, write_err,
}

unfoldable pub write_to : Bytes → Message → List Chunks
unfolding write_welcome write_names end_of_names_line write_rpl_topic write_channel_mode write_motd
    write_lusers write_list write_userhosts write_whois end_of_whois_line away_line write_who
    write_join write_nick write_topic write_ping write_pong write_mode write_priv_msg write_notice
    write_part write_now_away write_un_away write_quit write_fatal_error write_err
write_to sv (Message.welcome nickname user_fullspec welcome_config) =
    write_welcome sv nickname user_fullspec welcome_config
write_to sv (Message.join channel user_fullspec) = write_join sv channel user_fullspec ∷ []
write_to sv (Message.nick previous_user_fullspec nickname) =
    write_nick sv previous_user_fullspec nickname ∷ []
write_to sv (Message.names client names) = write_names sv client names
write_to sv (Message.end_of_names client channel) = end_of_names_line sv client channel ∷ []
write_to sv (Message.rpl_topic client channel topic) = write_rpl_topic sv client channel topic
write_to sv (Message.topic user_fullspec channel topic) =
    write_topic sv user_fullspec channel topic ∷ []
write_to sv (Message.ping token) = write_ping sv token ∷ []
write_to sv (Message.pong token) = write_pong sv token ∷ []
write_to sv (Message.mode user_fullspec target modechar param) =
    write_mode sv user_fullspec target modechar param ∷ []
write_to sv (Message.channel_mode client channel mode) =
    write_channel_mode sv client channel mode ∷ []
write_to sv (Message.priv_msg from_user target content) =
    write_priv_msg sv from_user target content ∷ []
write_to sv (Message.notice from_user target content) =
    write_notice sv from_user target content ∷ []
write_to sv (Message.motd client motd) = write_motd sv client motd
write_to sv (Message.l_users client ops unknown channels clients servers extra_info) =
    write_lusers sv client ops unknown channels clients servers extra_info
write_to sv (Message.part user_fullspec channel reason) =
    write_part sv user_fullspec channel reason ∷ []
write_to sv (Message.list client infos) = write_list sv client infos
write_to sv (Message.now_away client) = write_now_away sv client ∷ []
write_to sv (Message.un_away client) = write_un_away sv client ∷ []
write_to sv (Message.rpl_away client target_nickname away_message) =
    away_line sv client target_nickname away_message ∷ []
write_to sv (Message.rpl_userhost client info) =
    numeric sv (codes " 302 ") client (codes " :" ∷ write_userhosts info) ∷ []
write_to sv (Message.rpl_whois client target_nickname away_message hostname username realname) =
    write_whois sv client target_nickname away_message hostname username realname
write_to sv (Message.rpl_end_of_whois client target_nickname) =
    end_of_whois_line sv client target_nickname ∷ []
write_to sv (Message.who client mask replies) = write_who sv client mask replies
write_to sv (Message.quit user_fullspec reason) = write_quit sv user_fullspec reason ∷ []
write_to sv (Message.fatal_error reason) = write_fatal_error sv reason ∷ []
write_to sv (Message.err e) = write_err sv e ∷ []
