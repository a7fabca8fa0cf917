-- ===== src/Invariant.antt =====
-- What holds of the server in every state that it can reach, whatever the clients send.
pub mod Locks
pub mod Kept
pub mod Operating
pub mod Dispatch
pub mod Mailboxes
pub mod Untouched
pub mod Isolation
pub mod Agreement
pub mod Operations
pub mod Sessions
pub mod Reach
pub mod World
pub mod Registry
