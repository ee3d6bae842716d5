-- ===== src/Flag/Rounds/Sound.antt =====
-- The state of a round: what every writer of a flag preserves.
use musecat_backend_core.Prelude.{
  String, Option, List, Bool, true, false, str_eq, eq_iff, ok, ◌≡◌, refl, sym, subst, inl, inr,
  arith, Bool-cases,
}
use musecat_backend_core.Prelude.Text.{concat}
use musecat_backend_core.Xp.Kinds.{Time}
use musecat_backend_core.Xp.Kinds.Decimal.{format_int}
use musecat_backend_core.Flag.Rows.{Flag, ReactionRow, is_open}
use musecat_backend_core.Flag.Rounds.Reconcile.{reconcile-cases}
use musecat_backend_core.Flag.Rounds.{
  reconcile_flag_resolution, reconcile_votes, with_votes, close_flag_resolution,
  start_flag_resolution, start_stale_flag_resolution, new_flag_resolution_round,
}

-- A round that is not open has no deadline; a solved flag has no open round; an open round is named.
pub record IsRoundSound (flag : Flag) : Type 0 where
  pub closed : is_open flag.vote_state ≡ false → flag.vote_resolve_at ≡ 0
  pub solved : flag.solved ≡ true → is_open flag.vote_state ≡ false
  pub named : is_open flag.vote_state ≡ true → str_eq flag.vote_round "" ≡ false

concat-colon : (s t : String) → str_eq (concat s (concat ":" t)) "" ≡ false
unfolding concat
concat-colon String.[] t = elim (Bool-cases (str_eq (concat ":" t) "")) [
  | inl e ↦ absurd (let e' = (eq_iff _ "").0 e in cc)
  | inr e ↦ e
]
concat-colon (String.◌∷◌ c s) t =
    elim (Bool-cases (str_eq (String.◌∷◌ c (concat s (concat ":" t))) "")) [
      | inl e ↦ absurd (let e' = (eq_iff _ "").0 e in cc)
      | inr e ↦ e
    ]

pub start-IsRoundSound :
    (saves : Bool) (flag flag' : Flag) (now : Time)
    → flag.solved ≡ false
    → start_flag_resolution saves flag now ≡ ok flag'
    → IsRoundSound flag'
unfolding start_flag_resolution new_flag_resolution_round
start-IsRoundSound saves flag flag' now unsolved h = record {
  closed = λ c. absurd (ground arith);
  solved = λ c. absurd (ground arith);
  named = λ c. ground (arith, concat-colon flag.id (format_int now));
}

pub start_stale-IsRoundSound :
    (saves : Bool) (flag flag' : Flag) (now : Time)
    → flag.solved ≡ false
    → start_stale_flag_resolution saves flag now ≡ ok flag'
    → IsRoundSound flag'
unfolding start_stale_flag_resolution new_flag_resolution_round
start_stale-IsRoundSound saves flag flag' now unsolved h = record {
  closed = λ c. absurd (ground arith);
  solved = λ c. absurd (ground arith);
  named = λ c. ground (arith, concat-colon flag.id (format_int now));
}

votes-IsRoundSound :
    (saves : Bool) (rows : Option (List ReactionRow)) (flag flag' : Flag) (now : Time)
    (reset b : Bool)
    → with_votes saves flag rows now reset ≡ ok (b, flag')
    → is_open flag.vote_state ≡ true
    → IsRoundSound flag
    → IsRoundSound flag'
unfolding with_votes reconcile_votes close_flag_resolution
votes-IsRoundSound saves rows flag flag' now reset b h o s = record {
  closed = λ c. ground (arith, s.closed);
  solved = λ c. ground (arith, s.solved);
  named = λ c. ground (arith, s.named);
}

-- A reconciliation that returns keeps a sound round sound: a round that is not open has no deadline,
-- a solved flag has no open round, and an open round is named.
pub reconcile-IsRoundSound :
    (saves : Bool) (rows : Option (List ReactionRow)) (flag flag' : Flag) (now : Time)
    (reset b : Bool)
    → reconcile_flag_resolution saves rows flag now reset ≡ ok (b, flag')
    → IsRoundSound flag
    → IsRoundSound flag'
reconcile-IsRoundSound saves rows flag flag' now reset b h s =
    elim (reconcile-cases saves rows flag flag' now reset b h) [
      | inl (due, _, same) ↦
          subst IsRoundSound (sym same)
            (record { closed = λ c. refl; solved = λ c. refl; named = λ c. absurd (ground arith) })
      | inr (inl (run, _, read)) ↦
          votes-IsRoundSound saves rows flag flag' now reset b read (ground arith) s
      | inr (inr (_, _, same)) ↦ subst IsRoundSound (sym same) s
    ]
