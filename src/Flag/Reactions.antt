-- ===== src/Flag/Reactions.antt =====
-- Requests that react to a flag, handlers/arcade/flag/reaction.go, and requests that create or delete one, create.go and delete.go beside it. Each is one transaction: an error rolls it back, so it
-- carries no state. The store of flags and reactions reads and saves without a failure, the exp goes
-- through the database of Xp.Store. What the arcade and its reports say of the user is a record of
-- Booleans; notifications and analytics are left out.
pub mod Preserve
pub mod Request
pub mod Create
use musecat_backend_core.Prelude.{
  ℕ, ◌+◌, String, Option, none, some, List, [], ◌∷◌, ◌++◌, select, Bool, true, false, not, ◌&&◌,
  ◌||◌, leb, ltb, ◌==◌, if◌then◌else◌, str_eq, Result, ok, err, ◌>>=◌,
}
use musecat_backend_core.Prelude.Int.{ℤ, pos, negsuc, ◌-ℤ◌, leb_ℤ}
use musecat_backend_core.Prelude.Text.{concat}
use musecat_backend_core.Xp.Kinds.{Time, flag_reaction_kind, flag_kind}
use musecat_backend_core.Xp.Level.{ExpFeedback, build_exp_feedback}
use musecat_backend_core.Xp.Level.Curve.{level_from_exp}
use musecat_backend_core.Xp.Store.{LevelLog, XpError, LevelDb, or_database}
use musecat_backend_core.Xp.Award.{load_current_exp, has_level_log_kind, award_exp, Grant}
use musecat_backend_core.Flag.Rows.{
  VoteState, idle, active, VoteMode, standard, stale, Reaction, fixed, issue_persist, wrong, report,
  vote, Flag, ReactionRow, is_open, same_reaction, minutes,
}
use musecat_backend_core.Flag.Votes.{FlagResolutionVote, find_current_flag_votes}
use musecat_backend_core.Flag.Votes.Tally.{find_current_user_vote}
use musecat_backend_core.Flag.Rounds.{
  FlagError, reconcile_flag_resolution, start_flag_resolution, solve_flag,
}
use musecat_backend_core.Flag.Rules.{
  ReactionError, or_flag_failed, or_xp_failed, guard, reaction_exp, ArcadeAccess,
  find_latest_reaction, ensure_issue_persist_available, create_flag_reaction, open_round,
  activate_round, settle_flag, touch_flag_activity, remove_row, first_diff, already_solved,
  report_external, write_forbidden, voting_started, voting_not_started, reported_lately,
  already_exists, none_deletable, window_closed, not_creator, flag_failed, xp_failed,
}

module _ (D : LevelDb) where
  open D use {Db, list_logs}

  -- the store of one flag
  pub record FlagWorld : Type 0 where
    pub flag : Flag
    pub reactions : List ReactionRow
    pub levels : Db

  -- the rest of removeReactionRecordTx once the row is deleted: the exp of the account
  unfoldable pub revoke_reaction_exp : Db → String → String → ℤ → ℤ → Result ReactionError (ℤ × Db)
  unfolding or_xp_failed first_diff
  revoke_reaction_exp db id user base current = do
    awarded ← or_xp_failed (has_level_log_kind D db user (flag_reaction_kind id))
    rows ← or_xp_failed (or_database (list_logs db))
    let grant =
        first_diff
          (select (λ row. str_eq row.user user && str_eq row.kind (flag_reaction_kind id)) rows)
    if not awarded || leb_ℤ grant (pos 0)
        then ok (current, db)
        else (or_xp_failed
              (award_exp D db user (concat "xp:flag-reaction-delete:" id) (pos 0 -ℤ grant) base)
            >>= λ (g : Grant D). ok (g.0, g.2))

  -- a write of a reaction, and the exp of the account after it
  abbrev pub Written : Type 0
  Written = Result ReactionError (FlagWorld × ℤ)

  -- the branch issue_persist of UpdateArcadeFlagReaction
  unfoldable pub add_report : FlagWorld → String → String → Time → ℤ → Written
  unfolding guard ensure_issue_persist_available
  add_report w user id now base = do
    free ← guard (not (is_open w.flag.vote_state)) voting_started
    late ← ensure_issue_persist_available user w.flag.id now w.reactions
    ok (
      record w {
        reactions = create_flag_reaction id w.flag.id user issue_persist "" 0 now w.reactions;
      },
      base,
    )

  -- the vote that a new one replaces
  replace_vote : FlagWorld → String → Reaction → ℤ → Option FlagResolutionVote → Written
  unfolding revoke_reaction_exp
  replace_vote w user reaction base none = ok (w, base)
  replace_vote w user reaction base (some v) =
      if same_reaction v.reaction reaction
      then err already_exists
      else (revoke_reaction_exp w.levels v.id user base base >>= λ (r : ℤ × Db).
          ok (record w { reactions = remove_row v.id w.reactions; levels = r.1 }, r.0))

  -- the branch fixed and wrong of UpdateArcadeFlagReaction
  unfoldable pub add_vote : FlagWorld → String → Reaction → String → Time → ℤ → Written
  unfolding guard replace_vote or_flag_failed or_xp_failed
  add_vote w user reaction id now base = do
    started ←
        guard (not (same_reaction reaction wrong) || is_open w.flag.vote_state) voting_not_started
    flag ← or_flag_failed (open_round w.flag now)
    (w', current) ←
        replace_vote w user reaction base (
          find_current_user_vote user (find_current_flag_votes flag.id flag.vote_round w.reactions))
    exp ← or_xp_failed (load_current_exp D w'.levels user)
    ok (
      record w' {
        flag = activate_round flag;
        reactions =
            create_flag_reaction id flag.id user reaction flag.vote_round (level_from_exp exp) now
              w'.reactions;
      },
      current,
    )

  -- the exp of a new reaction on a public arcade
  award_reaction : Bool → Db → String → String → Reaction → ℤ → Result ReactionError (ℤ × Db)
  unfolding or_xp_failed
  award_reaction false db user id reaction current = ok (current, db)
  award_reaction true db user id reaction current =
      or_xp_failed (award_exp D db user (flag_reaction_kind id) (reaction_exp reaction) current)
      >>= λ (g : Grant D). ok (g.0, g.2)

  -- the action add of UpdateArcadeFlagReaction, on a flag that has passed its checks
  unfoldable pub add_reaction :
      ArcadeAccess
      → FlagWorld
      → String
      → Reaction
      → String
      → Time
      → ℤ
      → Result ReactionError (FlagWorld × ExpFeedback)
  unfolding add_report add_vote award_reaction or_flag_failed
  add_reaction access w user reaction id now base = do
    (w', current) ←
        if same_reaction reaction issue_persist
        then add_report w user id now base
        else add_vote w user reaction id now base
    (exp, levels) ← award_reaction access.public w'.levels user id reaction current
    flag ←
        or_flag_failed
          (settle_flag (same_reaction reaction fixed && access.managed) w'.reactions w'.flag now)
    ok (
      record w' { flag = touch_flag_activity flag now; levels = levels },
      build_exp_feedback base exp,
    )

  -- the row that the action delete takes: the latest report, or the vote in the current round
  own_vote : Reaction → Option FlagResolutionVote → Option String
  own_vote reaction none = none
  own_vote reaction (some v) = if same_reaction v.reaction reaction then some v.id else none

  find_row : String → List ReactionRow → Option ReactionRow
  find_row id [] = none
  find_row id (row ∷ rows) =
      let rest = find_row id rows in if str_eq row.id id then some row else rest

  row_with : Option String → List ReactionRow → Option ReactionRow
  unfolding find_row
  row_with none rows = none
  row_with (some id) rows = find_row id rows

  unfoldable pub deletable_row : FlagWorld → String → Reaction → Option ReactionRow
  unfolding row_with own_vote
  deletable_row w user reaction =
      if same_reaction reaction issue_persist
      then find_latest_reaction user w.flag.id issue_persist none w.reactions
      else row_with
          (own_vote reaction (
            find_current_user_vote user
              (find_current_flag_votes w.flag.id w.flag.vote_round w.reactions)))
          w.reactions

  unfoldable pub delete_row :
      FlagWorld
      → String
      → Reaction
      → Time
      → ℤ
      → Option ReactionRow
      → Result ReactionError (FlagWorld × ExpFeedback)
  unfolding guard or_flag_failed
  delete_row w user reaction now base none = err none_deletable
  delete_row w user reaction now base (some row) = do
    recent ← guard ((row.created == 0) || leb now (row.created + minutes 15)) window_closed
    (exp, levels) ← revoke_reaction_exp w.levels row.id user base base
    let rows = remove_row row.id w.reactions
    flag ← or_flag_failed (
        if same_reaction reaction issue_persist
        then ok w.flag
        else settle_flag false rows w.flag now)
    ok (
      record { flag = touch_flag_activity flag now; reactions = rows; levels = levels },
      build_exp_feedback base exp,
    )

  -- the action delete of UpdateArcadeFlagReaction
  unfoldable pub delete_reaction :
      FlagWorld → String → Reaction → Time → ℤ → Result ReactionError (FlagWorld × ExpFeedback)
  unfolding delete_row
  delete_reaction w user reaction now base =
      delete_row w user reaction now base (deletable_row w user reaction)

  -- UpdateArcadeFlagReaction with a valid body, of a flag, an arcade and a user that exist; `adds` is
  -- the action, and `id` the identifier that the store gives a new row
  unfoldable pub update_arcade_flag_reaction :
      ArcadeAccess
      → FlagWorld
      → String
      → Reaction
      → Bool
      → String
      → Time
      → Result ReactionError (FlagWorld × ExpFeedback)
  unfolding guard or_flag_failed or_xp_failed add_reaction delete_reaction
  update_arcade_flag_reaction access w user reaction adds id now = do
    unsolved ← guard (not w.flag.solved) already_solved
    (solved, flag) ←
        or_flag_failed (reconcile_flag_resolution true (some w.reactions) w.flag now false)
    still ← guard (not solved) already_solved
    internal ← guard (not access.external) report_external
    allowed ← guard access.writable write_forbidden
    base ← or_xp_failed (load_current_exp D w.levels user)
    if adds
        then add_reaction access (record w { flag = flag }) user reaction id now base
        else delete_reaction (record w { flag = flag }) user reaction now base
