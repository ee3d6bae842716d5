-- ===== src/Flag/Rounds/Reconcile.antt =====
-- What one reconciliation of a flag decides.
use musecat_backend_core.Prelude.{
  ◌+◌, ◌≤◌, ◌<◌, Option, none, some, List, [], ◌∷◌, Bool, true, false, not, ◌&&◌, ◌||◌, leb, ◌==◌,
  str_eq, ok, length, ◌≡◌, refl, sym, ◌∙◌, subst, ◌⊎◌, inl, inr, arith, Bool-cases,
}
use musecat_backend_core.Prelude.Int.{ℤ, pos, ltb_ℤ, ◌≤ℤ◌}
use musecat_backend_core.Xp.Kinds.{Time}
use musecat_backend_core.Flag.Rows.{idle, Flag, ReactionRow, is_open, is_stale, minutes}
use musecat_backend_core.Flag.Votes.{
  flag_resolution_delay, FlagResolutionVote, find_current_flag_votes, VoteTally, tally_votes,
  score_of,
}
use musecat_backend_core.Flag.Rounds.{
  reconcile_flag_resolution, reconcile_votes, with_votes, close_flag_resolution, solve_flag,
}

-- A higher score never waits longer, and every score waits between 15 minutes and 72 hours.
pub delay_antitone :
    (score score' : ℤ)
    → score ≤ℤ score'
    → (minutes 15 ≤ flag_resolution_delay score')
      × (flag_resolution_delay score' ≤ flag_resolution_delay score)
      × (flag_resolution_delay score ≤ minutes 4320)
unfolding flag_resolution_delay
delay_antitone score score' h = ground arith

delay_lower : (score : ℤ) → minutes 15 ≤ flag_resolution_delay score
unfolding flag_resolution_delay
delay_lower score = ground arith

-- the deadline of a flag has come
abbrev pub is_due : Flag → Time → Bool
is_due flag now =
    not flag.solved
    && is_open flag.vote_state
    && not (str_eq flag.vote_round "")
    && not (flag.vote_resolve_at == 0)
    && leb flag.vote_resolve_at now

votes-unsolved :
    (saves : Bool) (rows : Option (List ReactionRow)) (flag flag' : Flag) (now : Time)
    (reset b : Bool)
    → with_votes saves flag rows now reset ≡ ok (b, flag')
    → (b ≡ false) × (flag'.solved ≡ flag.solved)
unfolding reconcile_votes close_flag_resolution with_votes
votes-unsolved saves rows flag flag' now reset b h = (ground arith, ground arith)

-- A reconciliation that returns reports a flag as solved exactly when the flag was open and unsolved
-- and its deadline had come, and it changes `solved` in no other case.
pub reconcile-solves :
    (saves : Bool) (rows : Option (List ReactionRow)) (flag flag' : Flag) (now : Time)
    (reset b : Bool)
    → reconcile_flag_resolution saves rows flag now reset ≡ ok (b, flag')
    → (b ≡ is_due flag now) × (flag'.solved ≡ (flag.solved || is_due flag now))
unfolding reconcile_flag_resolution solve_flag
reconcile-solves saves rows flag flag' now reset b h = elim (Bool-cases (is_due flag now)) [
  | inl due ↦ (ground arith, ground arith)
  | inr due ↦ (
    ground (arith, votes-unsolved saves rows flag flag' now reset b),
    ground (arith, votes-unsolved saves rows flag flag' now reset b),
  )
]

-- What is decided from the votes: the flag is left, closed, or given the deadline of its score.
abbrev pub is_lost : VoteTally → Bool
is_lost t = (t.fixed_count == 0) || ltb_ℤ (score_of t) (pos 0)

votes_again :
    (saves saves' : Bool) (flag flag' : Flag) (votes : List FlagResolutionVote) (now : Time)
    (reset b : Bool)
    → reconcile_votes saves flag votes now reset ≡ ok (b, flag')
    → is_open flag'.vote_state ≡ true
    → reconcile_votes saves' flag' votes now reset ≡ ok (false, flag')
unfolding reconcile_votes close_flag_resolution
votes_again saves saves' flag flag' votes now reset b h o =
    elim (Bool-cases (is_lost (tally_votes votes))) [
      | inl lost ↦ ground (arith, delay_lower (score_of (tally_votes votes)))
      | inr won ↦ ground (arith, delay_lower (score_of (tally_votes votes)))
    ]

votes-same :
    (saves : Bool) (flag flag' : Flag) (votes : List FlagResolutionVote) (now : Time)
    (reset b : Bool)
    → reconcile_votes saves flag votes now reset ≡ ok (b, flag')
    → (flag'.id ≡ flag.id) × (flag'.vote_round ≡ flag.vote_round)
unfolding reconcile_votes close_flag_resolution
votes-same saves flag flag' votes now reset b h = (ground arith, ground arith)

votes-deadline :
    (saves : Bool) (flag flag' : Flag) (votes : List FlagResolutionVote) (now : Time)
    (reset b : Bool)
    → reconcile_votes saves flag votes now reset ≡ ok (b, flag')
    → (flag'.vote_resolve_at ≡ 0)
      ⊎ ((now < flag'.vote_resolve_at) ⊎ (flag'.vote_resolve_at ≡ flag.vote_resolve_at))
unfolding reconcile_votes close_flag_resolution
votes-deadline saves flag flag' votes now reset b h =
    ground (arith, delay_lower (score_of (tally_votes votes)))

rows_again :
    (saves saves' : Bool) (rows : Option (List ReactionRow)) (flag flag' : Flag) (now : Time)
    (reset b : Bool)
    → with_votes saves flag rows now reset ≡ ok (b, flag')
    → is_open flag'.vote_state ≡ true
    → with_votes saves' flag' rows now reset ≡ ok (false, flag')
unfolding with_votes
rows_again saves saves' none flag flag' now reset b h o = absurd (ground arith)
rows_again saves saves' (some rows) flag flag' now reset b h o =
    let votes = find_current_flag_votes flag.id flag.vote_round rows in
    let (i, r) = votes-same saves flag flag' votes now reset b h in
    let same : find_current_flag_votes flag'.id flag'.vote_round rows ≡ votes = rw (i, r) refl in
    subst (λ v. reconcile_votes saves' flag' v now reset ≡ ok (false, flag')) (sym same)
      (votes_again saves saves' flag flag' votes now reset b h o)

-- a round that a reconciliation looks at
abbrev pub is_running : Flag → Bool
is_running flag = not flag.solved && is_open flag.vote_state && not (str_eq flag.vote_round "")

pub reconcile-cases :
    (saves : Bool) (rows : Option (List ReactionRow)) (flag flag' : Flag) (now : Time)
    (reset b : Bool)
    → reconcile_flag_resolution saves rows flag now reset ≡ ok (b, flag')
    → ((is_due flag now ≡ true)
        × (b ≡ true)
        × (flag'
            ≡ record flag { updated = now; solved = true; vote_state = idle; vote_resolve_at = 0 }))
      ⊎ (((is_running flag ≡ true)
            × (is_due flag now ≡ false)
            × (with_votes saves flag rows now reset ≡ ok (b, flag')))
          ⊎ ((is_running flag ≡ false) × (b ≡ false) × (flag' ≡ flag)))
unfolding reconcile_flag_resolution solve_flag
reconcile-cases saves rows flag flag' now reset b h = elim (Bool-cases (is_running flag)) [
  | inl run ↦ elim (Bool-cases (is_due flag now)) [
    | inl due ↦ inl (due, ground arith, ground arith)
    | inr due ↦ inr (inl (run, due, ground arith))
  ]
  | inr run ↦ inr (inr (run, ground arith, ground arith))
]

-- a reconciliation of a round that is open and not due reads the votes
undue :
    (saves : Bool) (rows : Option (List ReactionRow)) (flag : Flag) (now : Time) (reset : Bool)
    → is_running flag ≡ true
    → is_due flag now ≡ false
    → reconcile_flag_resolution saves rows flag now reset ≡ with_votes saves flag rows now reset
unfolding reconcile_flag_resolution
undue saves rows flag now reset run due = ground arith

idle_again :
    (saves : Bool) (rows : Option (List ReactionRow)) (flag : Flag) (now : Time) (reset : Bool)
    → is_running flag ≡ false
    → reconcile_flag_resolution saves rows flag now reset ≡ ok (false, flag)
unfolding reconcile_flag_resolution
idle_again saves rows flag now reset run = ground arith

with_votes-undue :
    (saves : Bool) (rows : Option (List ReactionRow)) (flag flag' : Flag) (now : Time)
    (reset b : Bool)
    → with_votes saves flag rows now reset ≡ ok (b, flag')
    → is_due flag now ≡ false
    → is_running flag ≡ true
    → is_due flag' now ≡ false
unfolding with_votes
with_votes-undue saves none flag flag' now reset b h due run = absurd (ground arith)
with_votes-undue saves (some rows) flag flag' now reset b h due run =
    let votes = find_current_flag_votes flag.id flag.vote_round rows in
    ground (arith, votes-deadline saves flag flag' votes now reset b h)

-- A second reconciliation at the same time, with the same rows and the same wish to move the deadline,
-- succeeds even if nothing can be saved, solves nothing and leaves the flag as it is.
pub reconcile_again :
    (saves saves' : Bool) (rows : Option (List ReactionRow)) (flag flag' : Flag) (now : Time)
    (reset b : Bool)
    → reconcile_flag_resolution saves rows flag now reset ≡ ok (b, flag')
    → reconcile_flag_resolution saves' rows flag' now reset ≡ ok (false, flag')
reconcile_again saves saves' rows flag flag' now reset b h =
    elim (reconcile-cases saves rows flag flag' now reset b h) [
      | inl (_, _, same) ↦ idle_again saves' rows flag' now reset (ground arith)
      | inr (inl (run, due, read)) ↦ elim (Bool-cases (is_running flag')) [
        | inl run' ↦
            undue saves' rows flag' now reset run'
              (with_votes-undue saves rows flag flag' now reset b read due run)
            ∙ rows_again saves saves' rows flag flag' now reset b read (ground arith)
        | inr idle' ↦ idle_again saves' rows flag' now reset idle'
      ]
      | inr (inr (run, _, same)) ↦ idle_again saves' rows flag' now reset (ground arith)
    ]

length-eq-zero : (votes : List FlagResolutionVote) → (length votes == 0) ≡ true → votes ≡ []
length-eq-zero [] h = refl
length-eq-zero (v ∷ vs) h = absurd (ground arith)

votes-open :
    (saves : Bool) (flag flag' : Flag) (votes : List FlagResolutionVote) (now : Time) (b : Bool)
    → reconcile_votes saves flag votes now true ≡ ok (b, flag')
    → is_due flag now ≡ false
    → is_running flag ≡ true
    → is_open flag'.vote_state ≡ true
    → let t = tally_votes votes in
      ((flag' ≡ flag) × (is_stale flag.vote_mode ≡ true) × (votes ≡ []))
      ⊎ ((1 ≤ t.fixed_count)
          × (pos 0 ≤ℤ score_of t)
          × (now < flag'.vote_resolve_at)
          × (flag'.vote_resolve_at ≤ now + flag_resolution_delay (score_of t))
          × ((flag.vote_resolve_at ≡ 0) ⊎ (flag'.vote_resolve_at ≤ flag.vote_resolve_at)))
unfolding reconcile_votes close_flag_resolution
votes-open saves flag flag' votes now b h due run o =
    let low = delay_lower (score_of (tally_votes votes)) in
    elim (Bool-cases (is_lost (tally_votes votes))) [
      | inl lost ↦ inl (ground arith, ground arith, length-eq-zero votes (ground arith))
      | inr won ↦ inr (ground arith, ground arith, ground arith, ground arith, ground arith)
    ]

-- A reconciliation that may move the deadline and returns, of an unsolved flag with a named round,
-- leaves an open round in one of two states: a stale round without votes, as it was; or a round with
-- a vote for `fixed`, a score that is not negative, and a deadline later than now, no later than the
-- delay of the score from now, and no later than the deadline before, if there was one.
pub reconcile-deadline :
    (saves : Bool) (rows : List ReactionRow) (flag flag' : Flag) (now : Time) (b : Bool)
    → reconcile_flag_resolution saves (some rows) flag now true ≡ ok (b, flag')
    → flag.solved ≡ false
    → str_eq flag.vote_round "" ≡ false
    → is_open flag'.vote_state ≡ true
    → let t = tally_votes (find_current_flag_votes flag.id flag.vote_round rows) in
      ((flag' ≡ flag)
        × (is_stale flag.vote_mode ≡ true)
        × (find_current_flag_votes flag.id flag.vote_round rows ≡ []))
      ⊎ ((1 ≤ t.fixed_count)
          × (pos 0 ≤ℤ score_of t)
          × (now < flag'.vote_resolve_at)
          × (flag'.vote_resolve_at ≤ now + flag_resolution_delay (score_of t))
          × ((flag.vote_resolve_at ≡ 0) ⊎ (flag'.vote_resolve_at ≤ flag.vote_resolve_at)))
unfolding with_votes
reconcile-deadline saves rows flag flag' now b h unsolved named o =
    let votes = find_current_flag_votes flag.id flag.vote_round rows in
    elim (reconcile-cases saves (some rows) flag flag' now true b h) [
      | inl (_, _, same) ↦ absurd (ground arith)
      | inr (inl (run, due, read)) ↦ votes-open saves flag flag' votes now b read due run o
      | inr (inr (run, _, same)) ↦ absurd (ground arith)
    ]
