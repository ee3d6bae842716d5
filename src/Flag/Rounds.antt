-- ===== src/Flag/Rounds.antt =====
-- The rounds of a resolution: ReconcileFlagResolutionTx, StartFlagResolutionTx, StartStaleFlagResolutionTx and closeFlagResolutionTx of handlers/arcade/internal/flag_resolution.go, and the sweeps RunAutoSolve, RunAutoSolveForFlag and RunStaleResolutionSweep of handlers/arcade/flag/autosolve.go. `now` is a time after normalizeResolutionNow, which is never 0. `saves` says that app.Save succeeds; it also stamps the column updated, with `now`.
pub mod Reconcile
pub mod Sound
pub mod Sweeps
use musecat_backend_core.Prelude.{
  ℕ, ◌+◌, String, Option, none, some, List, [], ◌∷◌, Bool, true, false, not, ◌&&◌, ◌||◌, leb, ltb,
  ◌==◌, if◌then◌else◌, str_eq, Result, ok, err, ◌>>=◌, length,
}
use musecat_backend_core.Prelude.Int.{ℤ, pos, ltb_ℤ}
use musecat_backend_core.Prelude.Text.{concat}
use musecat_backend_core.Xp.Kinds.{Time}
use musecat_backend_core.Xp.Kinds.Decimal.{format_int}
use musecat_backend_core.Flag.Rows.{
  VoteState, idle, active, VoteMode, standard, stale, Flag, ReactionRow, is_open, is_stale, minutes,
}
use musecat_backend_core.Flag.Votes.{
  flag_resolution_delay, FlagResolutionVote, find_current_flag_votes, VoteTally, tally_votes,
  score_of,
}

pub data FlagError : Type 0 where
  votes_unreadable save_failed : FlagError

-- NewFlagResolutionRound
unfoldable pub new_flag_resolution_round : String → Time → String
new_flag_resolution_round flag now = concat flag (concat ":" (format_int now))

save_flag : Bool → Time → Flag → Result FlagError Flag
save_flag true now flag = ok (record flag { updated = now })
save_flag false now flag = err save_failed

-- what a function that solves or not returns
answer : Bool → Result FlagError Flag → Result FlagError (Bool × Flag)
answer solved (ok flag) = ok (solved, flag)
answer solved (err e) = err e

-- a flag in front of the flags of a loop's rest, and the sum of their counts
counted : ℕ → Flag → Result FlagError (ℕ × List Flag) → Result FlagError (ℕ × List Flag)
counted n flag (ok (m, flags)) = ok (n + m, flag ∷ flags)
counted n flag (err e) = err e

-- closeFlagResolutionTx; it solves nothing
unfoldable pub close_flag_resolution : Bool → Flag → Time → Result FlagError (Bool × Flag)
unfolding save_flag answer
close_flag_resolution saves flag now =
    if is_open flag.vote_state || not (flag.vote_resolve_at == 0)
    then answer false (
        save_flag saves now
          (record flag { vote_state = idle; vote_mode = standard; vote_resolve_at = 0 }))
    else ok (false, flag)

-- the flag that a deadline in the past, or a manager, solves
unfoldable pub solve_flag : Flag → Flag
solve_flag flag = record flag { solved = true; vote_state = idle; vote_resolve_at = 0 }

-- the part of ReconcileFlagResolutionTx that reads the votes
unfoldable pub reconcile_votes :
    Bool → Flag → List FlagResolutionVote → Time → Bool → Result FlagError (Bool × Flag)
unfolding save_flag close_flag_resolution answer
reconcile_votes saves flag votes now reset_deadline =
    let t = tally_votes votes in
    let candidate = now + flag_resolution_delay (score_of t) in
    if (t.fixed_count == 0) || ltb_ℤ (score_of t) (pos 0)
    then (if is_stale flag.vote_mode && (length votes == 0)
        then ok (false, flag)
        else close_flag_resolution saves flag now)
    else if (flag.vote_resolve_at == 0) || (reset_deadline && ltb candidate flag.vote_resolve_at)
    then answer false (save_flag saves now (record flag { vote_resolve_at = candidate }))
    else ok (false, flag)

unfoldable pub with_votes :
    Bool → Flag → Option (List ReactionRow) → Time → Bool → Result FlagError (Bool × Flag)
unfolding reconcile_votes
with_votes saves flag none now reset_deadline = err votes_unreadable
with_votes saves flag (some rows) now reset_deadline =
    reconcile_votes saves flag (find_current_flag_votes flag.id flag.vote_round rows) now
      reset_deadline

-- ReconcileFlagResolutionTx, of a flag that exists; `rows` is arcade_flag_reaction, `none` if the query fails
unfoldable pub reconcile_flag_resolution :
    Bool → Option (List ReactionRow) → Flag → Time → Bool → Result FlagError (Bool × Flag)
unfolding with_votes save_flag solve_flag answer
reconcile_flag_resolution saves rows flag now reset_deadline =
    if flag.solved
    then ok (false, flag)
    else if not (is_open flag.vote_state) || str_eq flag.vote_round ""
    then ok (false, flag)
    else if not (flag.vote_resolve_at == 0) && leb flag.vote_resolve_at now
    then answer true (save_flag saves now (solve_flag flag))
    else with_votes saves flag rows now reset_deadline

-- StartFlagResolutionTx
unfoldable pub start_flag_resolution : Bool → Flag → Time → Result FlagError Flag
unfolding save_flag
start_flag_resolution saves flag now = save_flag saves now (record flag {
  vote_state = active;
  vote_mode = standard;
  vote_round = new_flag_resolution_round flag.id now;
  vote_started_at = now;
  vote_resolve_at = 0;
})

-- StartStaleFlagResolutionTx
unfoldable pub start_stale_flag_resolution : Bool → Flag → Time → Result FlagError Flag
unfolding save_flag
start_stale_flag_resolution saves flag now = save_flag saves now (record flag {
  vote_state = active;
  vote_mode = stale;
  vote_round = new_flag_resolution_round flag.id now;
  vote_started_at = now;
  vote_resolve_at = now + minutes 4320;
})

-- the loop of RunAutoSolve over the flags, with the number of flags solved; the query takes the open flags that are not solved
unfoldable pub run_auto_solve :
    Bool → Option (List ReactionRow) → List Flag → Time → Result FlagError (ℕ × List Flag)
unfolding counted
run_auto_solve saves rows [] now = ok (0, [])
run_auto_solve saves rows (flag ∷ flags) now =
    let rest = run_auto_solve saves rows flags now in
    if not flag.solved && is_open flag.vote_state
    then (reconcile_flag_resolution saves rows flag now false >>= λ (r : Bool × Flag).
        counted (if r.0 then 1 else 0) r.1 rest)
    else counted 0 flag rest

-- the activity time of RunStaleResolutionSweep
unfoldable pub activity_at : Flag → Time
activity_at flag = if flag.updated == 0 then flag.created else flag.updated

-- StaleResolutionAge, 120 days
abbrev pub stale_resolution_age : ℕ
stale_resolution_age = minutes 172800

-- whether the sweep opens a flag: the query's condition and the test of the loop
unfoldable pub is_sweepable : Flag → Time → Bool
unfolding activity_at
is_sweepable flag now =
    not flag.solved
    && not (is_open flag.vote_state)
    && not (activity_at flag == 0)
    && leb (activity_at flag + stale_resolution_age) now

-- the loop of RunStaleResolutionSweep, with the number of flags opened
unfoldable pub run_stale_resolution_sweep :
    Bool → List Flag → Time → Result FlagError (ℕ × List Flag)
unfolding is_sweepable counted start_stale_flag_resolution
run_stale_resolution_sweep saves [] now = ok (0, [])
run_stale_resolution_sweep saves (flag ∷ flags) now =
    let rest = run_stale_resolution_sweep saves flags now in
    if is_sweepable flag now
    then (start_stale_flag_resolution saves flag now >>= λ flag'. counted 1 flag' rest)
    else counted 0 flag rest
