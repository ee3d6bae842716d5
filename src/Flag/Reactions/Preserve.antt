-- ===== src/Flag/Reactions/Preserve.antt =====
-- What a request that reacts to a flag preserves.
use musecat_backend_core.Prelude.{
  ◌+◌, ◌==◌, leb, String, Option, none, some, List, Bool, true, false, not, ◌&&◌, ◌||◌,
  if◌then◌else◌, Result, ok, err, >>=-eq-ok, ◌≡◌, refl, sym, subst, arith, inl, inr, Bool-cases,
  Result-cases,
}
use musecat_backend_core.Prelude.Int.{ℤ}
use musecat_backend_core.Xp.Kinds.{Time}
use musecat_backend_core.Xp.Level.{ExpFeedback}
use musecat_backend_core.Xp.Store.{LevelDb}
use musecat_backend_core.Xp.Award.{load_current_exp}
use musecat_backend_core.Flag.Rows.{
  minutes, Reaction, wrong, issue_persist, fixed, Flag, ReactionRow, is_open, same_reaction,
}
use musecat_backend_core.Flag.Votes.{FlagResolutionVote, find_current_flag_votes}
use musecat_backend_core.Flag.Votes.Tally.{find_current_user_vote}
use musecat_backend_core.Flag.Rounds.{FlagError, reconcile_flag_resolution, solve_flag}
use musecat_backend_core.Flag.Rounds.Sound.{
  IsRoundSound, start-IsRoundSound, reconcile-IsRoundSound,
}
use musecat_backend_core.Flag.Rules.{
  ReactionError, window_closed, ArcadeAccess, or_flag_failed, or_xp_failed, guard, open_round,
  activate_round, settle_flag, touch_flag_activity, ensure_issue_persist_available, remove_row,
}
use musecat_backend_core.Flag.Reactions.{
  FlagWorld, add_report, add_vote, replace_vote, add_reaction, delete_row, award_reaction,
  revoke_reaction_exp,
}

pub or_flag_failed-eq-ok :
    {A : Type 0} (r : Result FlagError A) (a : A) → or_flag_failed r ≡ ok a → r ≡ ok a
unfolding or_flag_failed
or_flag_failed-eq-ok (ok b) a h = ground arith
or_flag_failed-eq-ok (err e) a h = absurd (ground arith)

pub guard-eq-ok : (b : Bool) (e : ReactionError) {u : Unit} → guard b e ≡ ok u → b ≡ true
unfolding guard
guard-eq-ok true e h = refl
guard-eq-ok false e h = absurd (ground arith)

open_round-IsRoundSound :
    (flag flag' : Flag) (now : Time)
    → flag.solved ≡ false
    → IsRoundSound flag
    → open_round flag now ≡ ok flag'
    → IsRoundSound flag'
unfolding open_round
open_round-IsRoundSound flag flag' now unsolved s h = elim (Bool-cases (is_open flag.vote_state)) [
  | inl o ↦ subst IsRoundSound (ground arith) s
  | inr c ↦ start-IsRoundSound true flag flag' now unsolved (ground arith)
]

activate-IsRoundSound : (flag : Flag) → IsRoundSound flag → IsRoundSound (activate_round flag)
unfolding activate_round
activate-IsRoundSound flag s = record { closed = s.closed; solved = s.solved; named = s.named }

touch-IsRoundSound :
    (flag : Flag) (now : Time) → IsRoundSound flag → IsRoundSound (touch_flag_activity flag now)
unfolding touch_flag_activity
touch-IsRoundSound flag now s = record { closed = s.closed; solved = s.solved; named = s.named }

solve-IsRoundSound : (flag : Flag) → IsRoundSound (solve_flag flag)
unfolding solve_flag
solve-IsRoundSound flag = record {
  closed = λ c. refl;
  solved = λ c. refl;
  named = λ c. absurd (ground arith);
}

settle-IsRoundSound :
    (solves : Bool) (rows : List ReactionRow) (flag flag' : Flag) (now : Time)
    → IsRoundSound flag
    → settle_flag solves rows flag now ≡ ok flag'
    → IsRoundSound flag'
unfolding settle_flag
settle-IsRoundSound true rows flag flag' now s h =
    subst IsRoundSound (ground arith) (solve-IsRoundSound flag)
settle-IsRoundSound false rows flag flag' now s h =
    let (r, done, same) =
      >>=-eq-ok (reconcile_flag_resolution true (some rows) flag now true) _ h in
    subst IsRoundSound (ground arith)
      (reconcile-IsRoundSound true (some rows) flag r.1 now true r.0 done s)

module _ (D : LevelDb) where
  open D use {Db}

  add_report-flag :
      (w w' : FlagWorld D) (user id : String) (now : Time) (base exp : ℤ)
      → add_report D w user id now base ≡ ok (w', exp)
      → w'.flag ≡ w.flag
  unfolding add_report
  add_report-flag w w' user id now base exp h =
      let (_, _, h1) = >>=-eq-ok (guard (not (is_open w.flag.vote_state)) _) _ h in
      let (_, _, h2) =
        >>=-eq-ok (ensure_issue_persist_available user w.flag.id now w.reactions) _ h1 in
      ground arith

  replace_vote-flag :
      (w w' : FlagWorld D) (user : String) (reaction : Reaction) (base exp : ℤ)
      (v : Option FlagResolutionVote)
      → replace_vote D w user reaction base v ≡ ok (w', exp)
      → w'.flag ≡ w.flag
  unfolding replace_vote
  replace_vote-flag w w' user reaction base exp none h = ground arith
  replace_vote-flag w w' user reaction base exp (some v) h =
      elim (Result-cases (revoke_reaction_exp D w.levels v.id user base base)) [
        | inl (r, e) ↦ ground arith
        | inr (x, e) ↦ absurd (ground arith)
      ]

  add_vote-IsRoundSound :
      (w w' : FlagWorld D) (user : String) (reaction : Reaction) (id : String) (now : Time)
      (base exp : ℤ)
      → add_vote D w user reaction id now base ≡ ok (w', exp)
      → w.flag.solved ≡ false
      → IsRoundSound w.flag
      → IsRoundSound w'.flag
  unfolding add_vote
  add_vote-IsRoundSound w w' user reaction id now base exp h unsolved s =
      let (_, _, h1) =
        >>=-eq-ok (guard (not (same_reaction reaction wrong) || is_open w.flag.vote_state) _) _ h in
      let (flag, opened, h2) = >>=-eq-ok (or_flag_failed (open_round w.flag now)) _ h1 in
      let ((v, current), _, h3) =
        >>=-eq-ok
          (replace_vote D w user reaction base (
            find_current_user_vote user
              (find_current_flag_votes flag.id flag.vote_round w.reactions)))
          _ h2 in
      let (total, _, h4) = >>=-eq-ok (or_xp_failed (load_current_exp D v.levels user)) _ h3 in
      subst IsRoundSound (ground arith) (
        activate-IsRoundSound flag (
          open_round-IsRoundSound w.flag flag now unsolved s
            (or_flag_failed-eq-ok (open_round w.flag now) flag opened)))

  written-IsRoundSound :
      (w w' : FlagWorld D) (user : String) (reaction : Reaction) (id : String) (now : Time)
      (base exp : ℤ)
      → (if same_reaction reaction issue_persist
          then add_report D w user id now base
          else add_vote D w user reaction id now base)
        ≡ ok (w', exp)
      → w.flag.solved ≡ false
      → IsRoundSound w.flag
      → IsRoundSound w'.flag
  written-IsRoundSound w w' user reaction id now base exp h unsolved s =
      elim (Bool-cases (same_reaction reaction issue_persist)) [
        | inl p ↦ subst IsRoundSound (sym (add_report-flag w w' user id now base exp (rw p at h))) s
        | inr p ↦ add_vote-IsRoundSound w w' user reaction id now base exp (rw p at h) unsolved s
      ]

  pub add_reaction-IsRoundSound :
      (access : ArcadeAccess) (w w' : FlagWorld D) (user : String) (reaction : Reaction)
      (id : String) (now : Time) (base : ℤ) (f : ExpFeedback)
      → add_reaction D access w user reaction id now base ≡ ok (w', f)
      → w.flag.solved ≡ false
      → IsRoundSound w.flag
      → IsRoundSound w'.flag
  unfolding add_reaction
  add_reaction-IsRoundSound access w w' user reaction id now base f h unsolved s =
      let ((v, current), written, h1) =
        >>=-eq-ok
          (if same_reaction reaction issue_persist
            then add_report D w user id now base
            else add_vote D w user reaction id now base)
          _ h in
      let ((exp, levels), _, h2) =
        >>=-eq-ok (award_reaction D access.public v.levels user id reaction current) _ h1 in
      let settled =
        settle_flag (same_reaction reaction fixed && access.managed) v.reactions v.flag now in
      let (flag, done, h3) = >>=-eq-ok (or_flag_failed settled) _ h2 in
      subst IsRoundSound (ground arith) (
        touch-IsRoundSound flag now (
          settle-IsRoundSound (same_reaction reaction fixed && access.managed) v.reactions v.flag
            flag now (written-IsRoundSound w v user reaction id now base current written unsolved s)
            (or_flag_failed-eq-ok settled flag done)))

  kept_or_settled :
      (reports : Bool) (rows : List ReactionRow) (flag flag' : Flag) (now : Time)
      → (if reports then ok flag else settle_flag false rows flag now) ≡ ok flag'
      → IsRoundSound flag
      → IsRoundSound flag'
  kept_or_settled true rows flag flag' now h s = subst IsRoundSound (ground arith) s
  kept_or_settled false rows flag flag' now h s = settle-IsRoundSound false rows flag flag' now s h

  pub delete_row-IsRoundSound :
      (w w' : FlagWorld D) (user : String) (reaction : Reaction) (now : Time) (base : ℤ)
      (row : Option ReactionRow) (f : ExpFeedback)
      → delete_row D w user reaction now base row ≡ ok (w', f)
      → IsRoundSound w.flag
      → IsRoundSound w'.flag
  unfolding delete_row
  delete_row-IsRoundSound w w' user reaction now base none f h s = absurd (ground arith)
  delete_row-IsRoundSound w w' user reaction now base (some row) f h s =
      let (_, _, h1) =
        >>=-eq-ok (guard ((row.created == 0) || leb now (row.created + minutes 15)) window_closed) _
          h in
      let ((exp, levels), _, h2) =
        >>=-eq-ok (revoke_reaction_exp D w.levels row.id user base base) _ h1 in
      let kept =
        if same_reaction reaction issue_persist
        then ok w.flag
        else settle_flag false (remove_row row.id w.reactions) w.flag now in
      let (flag, done, h3) = >>=-eq-ok (or_flag_failed kept) _ h2 in
      subst IsRoundSound (ground arith) (
        touch-IsRoundSound flag now (
          kept_or_settled (same_reaction reaction issue_persist) (remove_row row.id w.reactions)
            w.flag flag now (or_flag_failed-eq-ok kept flag done) s))
