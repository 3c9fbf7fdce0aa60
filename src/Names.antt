-- ===== src/Names.antt =====
-- The names that the library knows: src/method.cpp, src/status.cpp and src/field.cpp.
pub mod Methods
pub mod Statuses
pub mod Octets
pub mod Recognised
pub mod Words
pub mod Fields
pub mod Folding
pub mod Found
