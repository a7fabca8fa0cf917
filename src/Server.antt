-- ===== src/Server.antt =====
-- cirque-core/src/server_state.rs: the state that all clients share, and its operations.
pub mod State
pub mod Nickname
pub mod Broadcast
pub mod Registration
pub mod Membership
pub mod Departure
pub mod Messaging
pub mod Settings
pub mod Topics
pub mod Queries
pub mod Valid
pub mod Nicknames
pub mod NicknameSteps
pub mod ReadOnly
pub mod Rules
pub mod Presence
pub mod Privacy
pub mod Recipients
pub mod Renaming
pub mod Admission
pub mod Parting
pub mod Voice
pub mod Notices
