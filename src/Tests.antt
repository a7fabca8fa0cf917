-- ===== src/Tests.antt =====
-- Examples: the theorems at concrete inputs.
pub mod Fixtures
pub mod Decoding
pub mod Reading
pub mod Reaching
pub mod Running
pub mod Starting
pub mod Silent
pub mod Conversing
pub mod Locking
pub mod Refusing
pub mod Together
pub mod Serving
pub mod Wire
pub mod Throttling
pub mod Limiting
pub mod Timers
