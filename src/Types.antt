-- ===== src/Types.antt =====
-- cirque-core/src/types.rs: the modes, the users and the channels that the server keeps.
pub mod ChannelUserMode
pub mod ChannelMode
pub mod Topic
pub mod User
pub mod Channel
