-- ===== src/Xp.antt =====
-- XP
pub mod Level
pub mod Kinds
pub mod Store
pub mod Award
pub mod Memory
pub mod Windows
pub mod Public
