-- ===== src/Rules.antt =====
-- src/rfc/detail/rules.cpp: field values and obs-fold.
pub mod ObsFold
pub mod Name
pub mod Value
pub mod StartLine
pub mod Line
pub mod Reads
pub mod Starts
pub mod Own
pub mod Unbroken
