-- ===== src/Flag/Rows.antt =====
-- The rows of arcade_flag and arcade_flag_reaction. A time is 0 for Go's zero time, and otherwise
-- nanoseconds since 1970-01-01 UTC.
use musecat_backend_core.Prelude.{ℕ, String, Bool, true, false, ◌*◌}
use musecat_backend_core.Prelude.Int.{ℤ}
use musecat_backend_core.Xp.Kinds.{Time}

pub data VoteState : Type 0 where
  idle active : VoteState

pub data VoteMode : Type 0 where
  standard stale : VoteMode

-- validReactionTypes
pub data Reaction : Type 0 where
  fixed issue_persist wrong : Reaction

pub data VoteContext : Type 0 where
  legacy report vote : VoteContext

-- a row of arcade_flag; the empty state and mode of an old row read as `idle` and `standard`
pub record Flag : Type 0 where
  pub id : String
  pub arcade : String
  pub created_by : String
  pub created : Time
  pub updated : Time
  pub solved : Bool
  pub vote_state : VoteState
  pub vote_mode : VoteMode
  pub vote_round : String
  pub vote_started_at : Time
  pub vote_resolve_at : Time

-- a row of arcade_flag_reaction
pub record ReactionRow : Type 0 where
  pub id : String
  pub flag : String
  pub reaction : Reaction
  pub created_by : String
  pub vote_context : VoteContext
  pub vote_round : String
  pub level_snapshot : ℤ
  pub created : Time

abbrev pub is_open : VoteState → Bool
is_open active = true
is_open idle = false

abbrev pub is_stale : VoteMode → Bool
is_stale stale = true
is_stale standard = false

abbrev pub is_vote : VoteContext → Bool
is_vote vote = true
is_vote _ = false

abbrev pub same_reaction : Reaction → Reaction → Bool
same_reaction fixed fixed = true
same_reaction issue_persist issue_persist = true
same_reaction wrong wrong = true
same_reaction _ _ = false

-- minutes in nanoseconds
abbrev pub minutes : ℕ → ℕ
minutes n = n * 60_000_000_000
