-- ===== src/Parser.antt =====
-- src/parser.cpp: one message after another from a stream of octets.
pub mod State
pub mod Calls
pub mod Parse
pub mod Delivered
pub mod Bodies
pub mod Begun
pub mod Ended
pub mod Full
