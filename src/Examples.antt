-- ===== src/Examples.antt =====
-- The theorems at concrete inputs.
pub mod Grants
pub mod Levels
pub mod Translations
pub mod Flags
pub mod Chats
pub mod Recoveries
pub mod Inquiries
pub mod Ledgers
