-- ===== src/Serializer.antt =====
-- src/serializer.cpp: messages as sequences of buffers.
pub mod Chunks
pub mod Decoded
pub mod Arrays
pub mod Consumed
pub mod State
pub mod Outcomes
pub mod Conserved
pub mod Calls
pub mod Start
pub mod Rounds
pub mod Sent
pub mod Transfer
pub mod Started
pub mod Buffered
pub mod Streamed
