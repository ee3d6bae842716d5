-- ===== src/Flag/Rounds/Sweeps.antt =====
-- The two sweeps of handlers/arcade/flag/autosolve.go over all flags.
use musecat_backend_core.Prelude.{
  ℕ, ◌+◌, Option, List, [], ◌∷◌, Bool, true, false, not, ◌&&◌, All, if◌then◌else◌, Result, ok, err,
  >>=-eq-ok, ◌≡◌, ◌⊎◌, refl, sym, subst, arith, inl, inr, Bool-cases,
}
use mathlib.Core.List.{Forall₂}
use musecat_backend_core.Xp.Kinds.{Time}
use musecat_backend_core.Flag.Rows.{idle, active, stale, Flag, ReactionRow, is_open, minutes}
use musecat_backend_core.Flag.Rounds.{
  FlagError, counted, run_auto_solve, is_sweepable, reconcile_flag_resolution,
  new_flag_resolution_round, with_votes, reconcile_votes, close_flag_resolution, solve_flag,
}
use musecat_backend_core.Flag.Rounds.Reconcile.{is_due, reconcile-solves}
use musecat_backend_core.Flag.Rounds.Sound.{IsRoundSound, reconcile-IsRoundSound}

-- how many flags pass a test
abbrev pub count_flags : (Flag → Bool) → List Flag → ℕ
count_flags test [] = 0
count_flags test (flag ∷ flags) = (if test flag then 1 else 0) + count_flags test flags

counted-eq-ok :
    (m n : ℕ) (flag : Flag) (rest : Result FlagError (ℕ × List Flag)) (flags : List Flag)
    → counted m flag rest ≡ ok (n, flags)
    → (k : ℕ) × (rows : List Flag) × (rest ≡ ok (k, rows)) × (n ≡ m + k) × (flags ≡ flag ∷ rows)
unfolding counted
counted-eq-ok m n flag (ok (k, rows)) flags h = (k, rows, refl, ground arith, ground arith)
counted-eq-ok m n flag (err e) flags h = absurd (ground arith)

-- a flag whose time had come has a stale round of three days that began now, and any other is as it was
abbrev pub IsSwept : Time → Flag → Flag → Type 0
IsSwept now flag flag' =
    ((is_sweepable flag now ≡ true)
      × (flag' ≡ record flag {
        updated = now;
        vote_state = active;
        vote_mode = stale;
        vote_round = new_flag_resolution_round flag.id now;
        vote_started_at = now;
        vote_resolve_at = now + minutes 4320;
      }))
    ⊎ ((is_sweepable flag now ≡ false) × (flag' ≡ flag))

-- a flag whose deadline had come is solved, its round is closed, and nothing else of it changed; any other
-- stays solved or unsolved as it was, and a flag without an open round is as it was
abbrev pub IsAutoSolved : Time → Flag → Flag → Type 0
IsAutoSolved now flag flag' =
    ((is_due flag now ≡ true)
      × (flag'
          ≡ record flag { updated = now; solved = true; vote_state = idle; vote_resolve_at = 0 }))
    ⊎ ((is_due flag now ≡ false)
        × (flag'.solved ≡ flag.solved)
        × (flag'.id ≡ flag.id)
        × ((is_open flag.vote_state ≡ true) ⊎ (flag' ≡ flag)))

skipped-IsAutoSolved :
    (flag : Flag) (now : Time)
    → (not flag.solved && is_open flag.vote_state) ≡ false
    → IsAutoSolved now flag flag
skipped-IsAutoSolved flag now h = inr (ground arith, refl, refl, inr refl)

-- a reconciliation keeps the identifier of the flag
reconcile-id :
    (saves : Bool) (rows : Option (List ReactionRow)) (flag flag' : Flag) (now : Time)
    (solved : Bool)
    → reconcile_flag_resolution saves rows flag now false ≡ ok (solved, flag')
    → flag'.id ≡ flag.id
unfolding reconcile_flag_resolution with_votes reconcile_votes close_flag_resolution solve_flag
reconcile-id saves rows flag flag' now solved h = ground arith

-- what one reconciliation of the loop does to a flag with an open round
reconcile-IsAutoSolved :
    (saves : Bool) (rows : Option (List ReactionRow)) (flag flag' : Flag) (now : Time)
    (solved : Bool)
    → is_open flag.vote_state ≡ true
    → reconcile_flag_resolution saves rows flag now false ≡ ok (solved, flag')
    → IsAutoSolved now flag flag'
unfolding reconcile_flag_resolution solve_flag
reconcile-IsAutoSolved saves rows flag flag' now solved running h =
    let (b, e) = reconcile-solves saves rows flag flag' now false solved h in
    elim (Bool-cases (is_due flag now)) [
      | inl due ↦ inl (due, ground arith)
      | inr due ↦
          inr (due, ground arith, reconcile-id saves rows flag flag' now solved h, inl running)
    ]

-- A run of the automatic solving that returns has solved exactly the flags whose deadline had come and closed their
-- rounds, leaves every other flag solved or unsolved as it was and a flag without an open round untouched, counts those that it
-- solved, and keeps every round sound.
pub run_auto_solve_lem :
    (saves : Bool) (rows : Option (List ReactionRow)) (flags flags' : List Flag) (now : Time)
    (n : ℕ)
    → run_auto_solve saves rows flags now ≡ ok (n, flags')
    → All IsRoundSound flags
    → Forall₂ (IsAutoSolved now) flags flags'
      × (n ≡ count_flags (λ flag. is_due flag now) flags)
      × All IsRoundSound flags'
unfolding run_auto_solve
run_auto_solve_lem saves rows [] flags' now n h s = (
  subst (Forall₂ (IsAutoSolved now) []) {x = []} (ground arith) Forall₂.nil,
  ground arith,
  subst (All IsRoundSound) {x = []} (ground arith) tt,
)
run_auto_solve_lem saves rows (flag ∷ flags) flags' now n h (here, there) =
    let rest = run_auto_solve saves rows flags now in
    elim (Bool-cases (not flag.solved && is_open flag.vote_state)) [
      | inl run ↦
          let ((solved, flag'), done, h') =
            >>=-eq-ok (reconcile_flag_resolution saves rows flag now false)
              (λ (r : Bool × Flag). counted (if r.0 then 1 else 0) r.1 rest) (rw run at h) in
          let (k, rows', ran, sum, same) =
            counted-eq-ok (if solved then 1 else 0) n flag' rest flags' h' in
          let (p, c, a) = run_auto_solve_lem saves rows flags rows' now k ran there in
          let (b, e) = reconcile-solves saves rows flag flag' now false solved done in
          (
            subst (Forall₂ (IsAutoSolved now) (flag ∷ flags)) (sym same) (
                Forall₂.cons
                  (reconcile-IsAutoSolved saves rows flag flag' now solved (ground arith) done) p),
            ground arith,
            subst (All IsRoundSound) (sym same)
                (reconcile-IsRoundSound saves rows flag flag' now false solved done here, a),
          )
      | inr idle_now ↦
          let (k, rows', ran, sum, same) = counted-eq-ok 0 n flag rest flags' (rw idle_now at h) in
          let (p, c, a) = run_auto_solve_lem saves rows flags rows' now k ran there in
          (
            subst (Forall₂ (IsAutoSolved now) (flag ∷ flags)) (sym same)
                (Forall₂.cons (skipped-IsAutoSolved flag now idle_now) p),
            ground arith,
            subst (All IsRoundSound) (sym same) (here, a),
          )
    ]
