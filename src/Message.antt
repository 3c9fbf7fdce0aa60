-- ===== src/Message.antt =====
-- src/message_base.cpp and what it uses.
pub mod NumberString
