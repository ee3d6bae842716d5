-- ===== src/Examples/Flags.antt =====
-- A flag with two votes, and a flag that its manager solves.
use mathlib.Core.List.{Forall₂}
use musecat_backend_core.Prelude.{
  All, ◌+◌, ◌<◌, ◌≤◌, ◌||◌, String, none, some, List, [], ◌∷◌, true, false, ◌≡◌, ◌⊎◌, refl, arith,
  ok,
}
use musecat_backend_core.Prelude.Int.{pos, ◌≤ℤ◌, ◌-ℤ◌, ◌+ℤ◌}
use musecat_backend_core.Prelude.Text.{trim_space, concat}
use musecat_backend_core.Xp.Kinds.{flag_reaction_kind}
use musecat_backend_core.Xp.Kinds.Decimal.{format_int}
use musecat_backend_core.Xp.Level.{build_exp_feedback}
use musecat_backend_core.Xp.Level.Curve.{level_from_exp}
use musecat_backend_core.Xp.Memory.{Memory, memory_db, save, append_log}
use musecat_backend_core.Xp.Award.{load_current_exp, award_exp}
use musecat_backend_core.Flag.Rows.{
  Flag, ReactionRow, active, idle, standard, stale, fixed, wrong, vote, minutes, is_stale,
}
use musecat_backend_core.Flag.Votes.{
  flag_resolution_delay, find_current_flag_votes, find_flag_reactions, tally_votes, score_of,
}
use musecat_backend_core.Flag.Votes.Tally.{
  find_current_user_vote, latest_vote, find_current_user_vote_lem,
}
use musecat_backend_core.Flag.Rounds.{
  run_auto_solve, reconcile_flag_resolution, reconcile_votes, with_votes, solve_flag,
  start_flag_resolution, new_flag_resolution_round,
}
use musecat_backend_core.Flag.Rounds.Reconcile.{
  delay_antitone, reconcile-solves, reconcile_again, reconcile-deadline, is_due,
}
use musecat_backend_core.Flag.Rounds.Sweeps.{count_flags, IsAutoSolved, run_auto_solve_lem}
use musecat_backend_core.Flag.Rounds.Sound.{IsRoundSound, reconcile-IsRoundSound}
use musecat_backend_core.Flag.Rules.{
  ArcadeAccess, open_round, activate_round, settle_flag, touch_flag_activity, create_flag_reaction,
  reaction_exp,
}
use musecat_backend_core.Flag.Reactions.{FlagWorld, update_arcade_flag_reaction}
use musecat_backend_core.Flag.Reactions.Request.{update_arcade_flag_reaction-IsRoundSound}

delay_antitone_example :
    (minutes 15 ≤ flag_resolution_delay (pos 12))
    × (flag_resolution_delay (pos 12) ≤ flag_resolution_delay (pos 4))
    × (flag_resolution_delay (pos 4) ≤ minutes 4320)
delay_antitone_example = delay_antitone (pos 4) (pos 12) (ground arith)

abbrev a_vote : String → String → ReactionRow
a_vote id user = record {
  id = id;
  flag = "f1";
  reaction = fixed;
  created_by = user;
  vote_context = vote;
  vote_round = "f1:5";
  level_snapshot = pos 12;
  created = 7;
}

abbrev votes : List ReactionRow
votes =
    a_vote "r1" "u2" ∷ (record (a_vote "r2" "u3") { reaction = wrong; level_snapshot = pos 3 }) ∷ []

abbrev voted : Flag
voted = record {
  id = "f1";
  arcade = "arc";
  created_by = "u1";
  created = 1;
  updated = 5;
  solved = false;
  vote_state = active;
  vote_mode = standard;
  vote_round = "f1:5";
  vote_started_at = 5;
  vote_resolve_at = 0;
}

-- a score of 9 waits 48 hours
abbrev dated : Flag
dated = record voted { updated = 1000; vote_resolve_at = 172_800_000_001_000 }

dates : reconcile_flag_resolution true (some votes) voted 1000 true ≡ ok (false, dated)
unfolding reconcile_flag_resolution reconcile_votes with_votes find_current_flag_votes tally_votes
    score_of flag_resolution_delay ◌-ℤ◌
dates = refl

reconcile-solves_example :
    (false ≡ is_due voted 1000) × (dated.solved ≡ (voted.solved || is_due voted 1000))
reconcile-solves_example = reconcile-solves true (some votes) voted dated 1000 true false dates

reconcile_again_example :
    reconcile_flag_resolution false (some votes) dated 1000 true ≡ ok (false, dated)
reconcile_again_example = reconcile_again true false (some votes) voted dated 1000 true false dates

reconcile-deadline_example :
    let t = tally_votes (find_current_flag_votes "f1" "f1:5" votes) in
    ((dated ≡ voted)
      × (is_stale standard ≡ true)
      × (find_current_flag_votes "f1" "f1:5" votes ≡ []))
    ⊎ ((1 ≤ t.fixed_count)
        × (pos 0 ≤ℤ score_of t)
        × (1000 < dated.vote_resolve_at)
        × (dated.vote_resolve_at ≤ 1000 + flag_resolution_delay (score_of t))
        × ((voted.vote_resolve_at ≡ 0) ⊎ (dated.vote_resolve_at ≤ voted.vote_resolve_at)))
reconcile-deadline_example =
    reconcile-deadline true votes voted dated 1000 false dates refl refl refl

voted-IsRoundSound : IsRoundSound voted
voted-IsRoundSound = record {
  closed = λ h. refl;
  solved = λ h. absurd (ground arith);
  named = λ h. refl;
}

reconcile-IsRoundSound_example : IsRoundSound dated
reconcile-IsRoundSound_example =
    reconcile-IsRoundSound true (some votes) voted dated 1000 true false dates voted-IsRoundSound

find_current_user_vote_lem_example :
    find_current_user_vote "u3" (find_current_flag_votes "f1" "f1:5" votes)
    ≡ latest_vote "f1:5" "u3" none (find_flag_reactions "f1" votes)
find_current_user_vote_lem_example = find_current_user_vote_lem "f1" "f1:5" "u3" votes

abbrev alice : Memory
alice = record {
  users = ("u1", "alice") ∷ [];
  levels = [];
  logs = [];
  clock = 1_700_000_000_000_000_000;
}

abbrev access : ArcadeAccess
access = record { external = false; writable = true; public = true; managed = true }

abbrev fresh : Flag
fresh = record voted { vote_state = idle; vote_round = ""; vote_started_at = 0 }

abbrev before : FlagWorld memory_db
before = record { flag = fresh; reactions = []; levels = alice }

abbrev after : FlagWorld memory_db
after = record {
  flag = record fresh {
    updated = 1000;
    solved = true;
    vote_round = "f1:1000";
    vote_started_at = 1000;
  };
  reactions = create_flag_reaction "r9" "f1" "u1" fixed "f1:1000" 0 1000 [];
  levels =
      append_log (save (save alice "u1" (pos 0)) "u1" (pos 3)) "u1" "xp:flag-reaction:r9" (pos 0)
        (pos 3) (pos 3);
}

solves :
    update_arcade_flag_reaction memory_db access before "u1" fixed true "r9" 1000
    ≡ ok (after, build_exp_feedback (pos 0) (pos 3))
unfolding update_arcade_flag_reaction open_round activate_round settle_flag touch_flag_activity
    reconcile_flag_resolution start_flag_resolution new_flag_resolution_round solve_flag
    find_current_flag_votes find_current_user_vote load_current_exp award_exp trim_space concat
    format_int flag_reaction_kind reaction_exp level_from_exp ◌+ℤ◌
solves = refl

fresh-IsRoundSound : IsRoundSound fresh
fresh-IsRoundSound = record {
  closed = λ h. refl;
  solved = λ h. refl;
  named = λ h. absurd (ground arith);
}

update_arcade_flag_reaction-IsRoundSound_example :
    (fresh.solved ≡ false)
    × (is_due fresh 1000 ≡ false)
    × (access.external ≡ false)
    × (access.writable ≡ true)
    × IsRoundSound after.flag
update_arcade_flag_reaction-IsRoundSound_example =
    update_arcade_flag_reaction-IsRoundSound memory_db access before after "u1" fixed true "r9" 1000
      (build_exp_feedback (pos 0) (pos 3)) solves fresh-IsRoundSound

abbrev swept : Flag
swept = record fresh {
  updated = 10_368_000_000_000_005;
  vote_state = active;
  vote_mode = stale;
  vote_round = new_flag_resolution_round "f1" 10_368_000_000_000_005;
  vote_started_at = 10_368_000_000_000_005;
  vote_resolve_at = 10_627_200_000_000_005;
}

dated-IsRoundSound : IsRoundSound dated
dated-IsRoundSound = record {
  closed = λ h. absurd (ground arith);
  solved = λ h. absurd (ground arith);
  named = λ h. refl;
}

abbrev ended : Flag
ended = record dated {
  updated = 172_800_000_001_000;
  solved = true;
  vote_state = idle;
  vote_resolve_at = 0;
}

ends :
    run_auto_solve true (some votes) (dated ∷ fresh ∷ []) 172_800_000_001_000
    ≡ ok (1, ended ∷ fresh ∷ [])
unfolding run_auto_solve reconcile_flag_resolution solve_flag
ends = refl

run_auto_solve_lem_example :
    Forall₂ (IsAutoSolved 172_800_000_001_000) (dated ∷ fresh ∷ []) (ended ∷ fresh ∷ [])
    × (1 ≡ count_flags (λ flag. is_due flag 172_800_000_001_000) (dated ∷ fresh ∷ []))
    × All IsRoundSound (ended ∷ fresh ∷ [])
run_auto_solve_lem_example =
    run_auto_solve_lem true (some votes) (dated ∷ fresh ∷ []) (ended ∷ fresh ∷ [])
      172_800_000_001_000 1 ends (dated-IsRoundSound, (fresh-IsRoundSound, tt))
