-- ===== src/Flag/Votes.antt =====
-- The votes of a round and their sum: CanWithdrawFlag, FlagResolutionDelay, FindFlagReactions, FindCurrentFlagVotes, the tally of BuildFlagResolutionValueForUser, and buildReportState of
-- handlers/arcade/internal/flag_resolution.go.
pub mod Tally
use musecat_backend_core.Prelude.{
  ℕ, ◌+◌, String, Option, none, some, List, [], ◌∷◌, select, Bool, true, false, not, ◌&&◌, ◌||◌,
  leb, ltb, ◌==◌, if◌then◌else◌, str_eq,
}
use musecat_backend_core.Prelude.Int.{ℤ, pos, negsuc, ◌-ℤ◌, leb_ℤ, pos_part}
use musecat_backend_core.Prelude.Text.{trim_space}
use musecat_backend_core.Xp.Kinds.{Time}
use musecat_backend_core.Flag.Rows.{
  VoteState, idle, active, Reaction, fixed, issue_persist, wrong, VoteContext, vote, Flag,
  ReactionRow, is_open, is_vote, same_reaction, minutes,
}

-- CanWithdrawFlag, of a flag that exists
unfoldable pub can_withdraw_flag : Flag → String → Time → Bool
can_withdraw_flag flag user now =
    if str_eq (trim_space user) "" || flag.solved
    then false
    else if not (str_eq flag.created_by user)
    then false
    else if flag.created == 0
    then false
    else leb flag.created now && leb now (flag.created + minutes 15)

-- FlagResolutionDelay
unfoldable pub flag_resolution_delay : ℤ → ℕ
flag_resolution_delay score =
    if leb_ℤ (pos 30) score
    then minutes 15
    else if leb_ℤ (pos 20) score
    then minutes 180
    else if leb_ℤ (pos 10) score
    then minutes 1440
    else if leb_ℤ (pos 5) score
    then minutes 2880
    else minutes 4320

-- FlagResolutionVote; `id` is the reaction's row
pub record FlagResolutionVote : Type 0 where
  pub id : String
  pub user : String
  pub reaction : Reaction
  pub level : ℕ

-- FindFlagReactions: the rows of a flag in the order of their creation, which is the order of the list
unfoldable pub find_flag_reactions : String → List ReactionRow → List ReactionRow
find_flag_reactions flag rows = select (λ row. str_eq row.flag flag) rows

-- a row that counts in a round
unfoldable pub counts_in : String → ReactionRow → Bool
counts_in round row =
    is_vote row.vote_context
    && str_eq row.vote_round round
    && not (same_reaction row.reaction issue_persist)
    && not (str_eq row.created_by "")

unfoldable pub vote_of : ReactionRow → FlagResolutionVote
vote_of row = record {
  id = row.id;
  user = row.created_by;
  reaction = row.reaction;
  level = pos_part row.level_snapshot;
}

-- the assignment byUser[userID] = vote
unfoldable pub put_vote : FlagResolutionVote → List FlagResolutionVote → List FlagResolutionVote
put_vote v [] = v ∷ []
put_vote v (u ∷ us) = let rest = put_vote v us in if str_eq u.user v.user then v ∷ us else u ∷ rest

unfoldable pub votes_from :
    String → List FlagResolutionVote → List ReactionRow → List FlagResolutionVote
unfolding counts_in vote_of put_vote
votes_from round votes [] = votes
votes_from round votes (row ∷ rows) =
    votes_from round (if counts_in round row then put_vote (vote_of row) votes else votes) rows

-- FindCurrentFlagVotes, in the order of the voters' first votes: no caller depends on the order
unfoldable pub find_current_flag_votes :
    String → String → List ReactionRow → List FlagResolutionVote
unfolding votes_from find_flag_reactions
find_current_flag_votes flag round rows = votes_from round [] (find_flag_reactions flag rows)

-- the sums over the votes in BuildFlagResolutionValueForUser and in ReconcileFlagResolutionTx
pub record VoteTally : Type 0 where
  pub fixed_total : ℕ
  pub wrong_total : ℕ
  pub fixed_count : ℕ
  pub wrong_count : ℕ

unfoldable pub tally_votes : List FlagResolutionVote → VoteTally
tally_votes [] = record { fixed_total = 0; wrong_total = 0; fixed_count = 0; wrong_count = 0 }
tally_votes (v ∷ vs) =
    let t = tally_votes vs in
    if same_reaction v.reaction fixed
    then record t { fixed_total = v.level + t.fixed_total; fixed_count = t.fixed_count + 1 }
    else record t { wrong_total = v.level + t.wrong_total; wrong_count = t.wrong_count + 1 }

unfoldable pub score_of : VoteTally → ℤ
score_of t = pos t.fixed_total -ℤ pos t.wrong_total

-- FlagResolutionReport: what the user may do next with a report
pub data FlagResolutionReport : Type 0 where
  can_delete can_add : FlagResolutionReport
  cooldown : Option Time → FlagResolutionReport

-- buildReportState; `now` is time.Now()
unfoldable pub build_report_state : Time → Time → FlagResolutionReport
build_report_state created now =
    if created == 0
    then cooldown none
    else if leb now (created + minutes 15)
    then can_delete
    else if ltb now (created + minutes 1440)
    then cooldown (some (created + minutes 1440))
    else can_add
