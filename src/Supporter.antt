-- ===== src/Supporter.antt =====
-- The score of supporters, handlers/arcade/internal/supporter_score.go.
pub mod Ledger
pub mod Sources
