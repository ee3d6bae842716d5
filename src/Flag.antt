-- ===== src/Flag.antt =====
-- Flags of arcade games (handlers/arcade/flag, handlers/arcade/internal/flag_resolution.go): the rows,
-- the votes, the rounds of a resolution, and the requests that react to a flag.
pub mod Rows
pub mod Votes
pub mod Rounds
pub mod Rules
pub mod Reactions
