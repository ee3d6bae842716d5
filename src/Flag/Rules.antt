-- ===== src/Flag/Rules.antt =====
-- What the requests of handlers/arcade/flag/reaction.go, create.go and delete.go check and write on a flag and its
-- reactions: their errors, the access of a user to the arcade, the rows of reactions and the flag after a vote.
use musecat_backend_core.Prelude.{
  ℕ, ◌+◌, String, Option, none, some, List, [], ◌∷◌, ◌++◌, select, Bool, true, false, not, ◌&&◌,
  ◌||◌, leb, ◌==◌, if◌then◌else◌, str_eq, Result, ok, err, ◌>>=◌,
}
use musecat_backend_core.Prelude.Int.{ℤ, pos}
use musecat_backend_core.Xp.Kinds.{Time}
use musecat_backend_core.Xp.Store.{LevelLog, XpError}
use musecat_backend_core.Flag.Rows.{
  standard, Reaction, fixed, issue_persist, wrong, report, vote, Flag, ReactionRow, is_open,
  same_reaction, minutes,
}
use musecat_backend_core.Flag.Rounds.{
  FlagError, reconcile_flag_resolution, start_flag_resolution, solve_flag,
}

pub data ReactionError : Type 0 where
  already_solved report_external write_forbidden voting_started voting_not_started : ReactionError
  reported_lately already_exists none_deletable window_closed not_creator : ReactionError
  flag_failed : FlagError → ReactionError
  xp_failed : XpError → ReactionError

unfoldable pub or_flag_failed : {A : Type 0} → Result FlagError A → Result ReactionError A
or_flag_failed (ok a) = ok a
or_flag_failed (err e) = err (flag_failed e)

unfoldable pub or_xp_failed : {A : Type 0} → Result XpError A → Result ReactionError A
or_xp_failed (ok a) = ok a
or_xp_failed (err e) = err (xp_failed e)

unfoldable pub guard : Bool → ReactionError → Result ReactionError Unit
guard true e = ok tt
guard false e = err e

-- reactionExp
unfoldable pub reaction_exp : Reaction → ℤ
reaction_exp issue_persist = pos 2
reaction_exp fixed = pos 3
reaction_exp wrong = pos 0

-- arcadereport's mode, CanWriteArcade, the field public, and CanManage
pub record ArcadeAccess : Type 0 where
  pub external : Bool
  pub writable : Bool
  pub public : Bool
  pub managed : Bool

-- findLatestReaction with no context and no round: the rows stand in the order of their creation
unfoldable pub find_latest_reaction :
    String → String → Reaction → Option ReactionRow → List ReactionRow → Option ReactionRow
find_latest_reaction user flag reaction earlier [] = earlier
find_latest_reaction user flag reaction earlier (row ∷ rows) =
    find_latest_reaction user flag reaction
      (if str_eq row.flag flag && same_reaction row.reaction reaction && str_eq row.created_by user
        then some row
        else earlier)
      rows

may_report : Time → Option ReactionRow → Bool
may_report now none = true
may_report now (some last) = (last.created == 0) || leb (last.created + minutes 1440) now

-- ensureIssuePersistAvailable
unfoldable pub ensure_issue_persist_available :
    String → String → Time → List ReactionRow → Result ReactionError Unit
unfolding may_report guard
ensure_issue_persist_available user flag now rows =
    guard (may_report now (find_latest_reaction user flag issue_persist none rows)) reported_lately

-- createFlagReactionTx; `id` and `now` are what the store gives the row
unfoldable pub create_flag_reaction :
    String → String → String → Reaction → String → ℕ → Time → List ReactionRow → List ReactionRow
create_flag_reaction id user flag reaction round level now rows =
    rows
    ++ (record {
      id = id;
      flag = flag;
      reaction = reaction;
      created_by = user;
      vote_context = (if same_reaction reaction issue_persist then report else vote);
      vote_round = (if same_reaction reaction issue_persist then "" else round);
      level_snapshot = (if same_reaction reaction issue_persist then pos 0 else pos level);
      created = now;
    })
      ∷ []

-- the flag that a vote finds: its round is started, and a stale round becomes a standard one
unfoldable pub open_round : Flag → Time → Result FlagError Flag
open_round flag now =
    if is_open flag.vote_state then ok flag else start_flag_resolution true flag now

unfoldable pub activate_round : Flag → Flag
activate_round flag = record flag { vote_mode = standard }

-- the flag after an added reaction: a manager's `fixed` solves it, any other is reconciled
unfoldable pub settle_flag : Bool → List ReactionRow → Flag → Time → Result FlagError Flag
settle_flag solves rows flag now =
    if solves
    then ok (solve_flag flag)
    else (reconcile_flag_resolution true (some rows) flag now true >>= λ (r : Bool × Flag). ok r.1)

-- touchFlagActivityTx
unfoldable pub touch_flag_activity : Flag → Time → Flag
touch_flag_activity flag now = record flag { updated = now }

-- the removal of a row, and the exp of the grant for it
unfoldable pub remove_row : String → List ReactionRow → List ReactionRow
remove_row id rows = select (λ row. not (str_eq row.id id)) rows

unfoldable pub first_diff : List LevelLog → ℤ
first_diff [] = pos 0
first_diff (row ∷ rows) = row.diff_exp
