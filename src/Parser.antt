-- ===== src/Parser.antt =====
-- cirque-parser: lines out of the byte stream, and one line into a command with its parameters.
pub mod Message
pub mod Stream
pub mod Laws
pub mod Splits
pub mod Shape
pub mod Room
pub mod RoundTrip
