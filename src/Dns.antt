-- ===== src/Dns.antt =====
-- The zone data and its validation (internal/dns).
pub mod CharClass
pub mod Label
pub mod Record
pub mod Zone
pub mod Uri
pub mod Validator
pub mod Reverse
