-- ===== src/Aime/Stages.antt =====
-- The stages of a recovery: how available pages lead from one confirmation to the next, in RecordAimeProbe of
-- service/usernotification/aime.go.
use musecat_backend_core.Prelude.{
  ℕ, ◌+◌, ◌≤◌, ◌<◌, ◌≡◌, ◌⊎◌, refl, arith, inl, inr, String, true, false, str_eq, ltb, leb, ◌==◌,
  Bool-cases,
}
use musecat_backend_core.Xp.Kinds.{Time}
use musecat_backend_core.Aime.Probe.{
  available, Source, Stored, old_http, web, is_web, is_web_available, AimeState, minutes, reset,
  with_candidate, starts_over, count_confirmation, confirm, observe, next_state,
}

-- an incident of which both channels of operations were told
pub record IsTold (row : AimeState) : Type 0 where
  pub named : str_eq row.incident "" ≡ false
  pub telegram : row.ops_telegram_sent ≡ true
  pub discord : row.ops_discord_sent ≡ true

-- a row with `n` confirmations or more, the last of them or the start of the window at `last`
pub record IsStage (n : ℕ) (last : Time) (row : AimeState) : Type 0 where
  told : IsTold row
  status : is_web_available row.status ≡ true
  live : row.recovered ≡ false
  count : n ≤ row.confirmations
  since : row.confirmation_at ≡ last
  started : (last == 0) ≡ false
  candidate : (row.ops_candidate_at == 0) ≡ false

-- a row that has recovered, or is at a stage
abbrev pub IsAhead : ℕ → Time → AimeState → Type 0
IsAhead n last row = (row.recovered ≡ true) ⊎ IsStage n last row

-- the probe of an available page
abbrev pub page : ℕ → Source
page http = record { status = available; http_status = http }

abbrev stored : AimeState → ℕ → Time → AimeState
stored row http now = record row { status = web available; http_status = http; checked_at = now }

web_of_available : (status : Stored) → is_web_available status ≡ true → is_web status ≡ true
web_of_available (old_http s) h = absurd (ground arith)
web_of_available (web o) h = refl

stays_recovered :
    (row : AimeState) (http : ℕ) (stamp : String) (now : Time)
    → row.recovered ≡ true
    → (next_state row (page http) stamp now).recovered ≡ true
unfolding next_state
stays_recovered row http stamp now done = rw done refl

IsStage-next :
    (n : ℕ) (last : Time) (row : AimeState) (http : ℕ) (stamp : String) (now : Time)
    → last + minutes 5 ≤ now
    → now ≤ last + minutes 10
    → IsStage n last row
    → next_state row (page http) stamp now ≡ stored (count_confirmation row now) http now
unfolding next_state observe confirm
IsStage-next n last row http stamp now late soon s =
    let over : starts_over row now ≡ false = ground arith in
    let enough : leb (row.confirmation_at + minutes 5) now ≡ true = ground arith in
    rw (s.live, web_of_available row.status s.status, s.told.named, over, enough, s.candidate) refl

-- one more page in time is one more confirmation
IsStage-grows :
    (n : ℕ) (last : Time) (row : AimeState) (http : ℕ) (stamp : String) (now : Time)
    → last + minutes 5 ≤ now
    → now ≤ last + minutes 10
    → IsStage n last row
    → IsAhead (n + 1) now (next_state row (page http) stamp now)
IsStage-grows n last row http stamp now late soon s = elim (Bool-cases (ltb row.confirmations 2)) [
  | inl below ↦
      let early : leb 3 (row.confirmations + 1) ≡ false = ground arith in
      rw (IsStage-next n last row http stamp now late soon s, below, early)
        (inr (record {
          told = record {
            named = s.told.named;
            telegram = s.told.telegram;
            discord = s.told.discord;
          };
          status = refl;
          live = s.live;
          count = omega (arith, s.count);
          since = refl;
          started = ground arith;
          candidate = s.candidate;
        }))
  | inr enough ↦
      rw
        (
          IsStage-next n last row http stamp now late soon s,
          enough,
          s.told.telegram,
          s.told.discord,
        )
        (inl refl)
]

pub IsAhead-grows :
    (n : ℕ) (last : Time) (row : AimeState) (http : ℕ) (stamp : String) (now : Time)
    → last + minutes 5 ≤ now
    → now ≤ last + minutes 10
    → IsAhead n last row
    → IsAhead (n + 1) now (next_state row (page http) stamp now)
IsAhead-grows n last row http stamp now late soon (inl done) =
    inl (stays_recovered row http stamp now done)
IsAhead-grows n last row http stamp now late soon (inr s) =
    IsStage-grows n last row http stamp now late soon s

-- the third confirmation recovers
pub IsAhead-recovers :
    (last : Time) (row : AimeState) (http : ℕ) (stamp : String) (now : Time)
    → last + minutes 5 ≤ now
    → now ≤ last + minutes 10
    → IsAhead 2 last row
    → (next_state row (page http) stamp now).recovered ≡ true
IsAhead-recovers last row http stamp now late soon (inl done) =
    stays_recovered row http stamp now done
IsAhead-recovers last row http stamp now late soon (inr s) =
    let enough : ltb row.confirmations 2 ≡ false = ground (arith, s.count) in
    rw (IsStage-next 2 last row http stamp now late soon s, enough, s.told.telegram, s.told.discord)
      refl

reset-IsStage :
    (row : AimeState) (http : ℕ) (now : Time)
    → 1 ≤ now
    → row.recovered ≡ false
    → IsTold row
    → IsStage 0 now (stored (reset (with_candidate row now) now) http now)
reset-IsStage row http now later live u = elim (Bool-cases (row.ops_candidate_at == 0)) [
  | inl e ↦ rw e (record {
    told = record { named = u.named; telegram = u.telegram; discord = u.discord };
    status = refl;
    live = live;
    count = omega arith;
    since = refl;
    started = ground arith;
    candidate = ground arith;
  })
  | inr e ↦ rw e (record {
    told = record { named = u.named; telegram = u.telegram; discord = u.discord };
    status = refl;
    live = live;
    count = omega arith;
    since = refl;
    started = ground arith;
    candidate = e;
  })
]

-- a page that starts the window
over-IsStage :
    (row : AimeState) (http : ℕ) (stamp : String) (now : Time)
    → 1 ≤ now
    → row.recovered ≡ false
    → IsTold row
    → starts_over row now ≡ true
    → IsStage 0 now (next_state row (page http) stamp now)
unfolding next_state observe confirm
over-IsStage row http stamp now later live u over = elim (Bool-cases (is_web row.status)) [
  | inl e ↦
      let same : next_state row (page http) stamp now
          ≡ stored (reset (with_candidate row now) now) http now =
        rw (live, e, u.named, over) refl in
      rw same (reset-IsStage row http now later live u)
  | inr e ↦
      let over' : starts_over (reset row now) now ≡ true = ground arith in
      let same : next_state row (page http) stamp now
          ≡ stored (reset (with_candidate (reset row now) now) now) http now =
        rw (live, e, u.named, over') refl in
      rw same (
        reset-IsStage (reset row now) http now later live
          (record { named = u.named; telegram = u.telegram; discord = u.discord }))
]

-- a page less than five minutes after the last confirmation changes nothing of the incident
early-IsStage :
    (row : AimeState) (http : ℕ) (stamp : String) (now : Time)
    → row.recovered ≡ false
    → IsTold row
    → starts_over row now ≡ false
    → now < row.confirmation_at + minutes 5
    → IsStage 0 row.confirmation_at (next_state row (page http) stamp now)
unfolding next_state observe confirm
early-IsStage row http stamp now live u over early =
    let available_now : is_web_available row.status ≡ true = ground arith in
    let candidate : (row.ops_candidate_at == 0) ≡ false = ground arith in
    let few : leb (row.confirmation_at + minutes 5) now ≡ false = ground arith in
    let same : next_state row (page http) stamp now ≡ stored row http now =
      rw (live, web_of_available row.status available_now, u.named, over, few, candidate) refl in
    rw same (record {
      told = record { named = u.named; telegram = u.telegram; discord = u.discord };
      status = refl;
      live = live;
      count = omega arith;
      since = refl;
      started = ground arith;
      candidate = candidate;
    })

IsAhead-weakens : (n : ℕ) (last : Time) (row : AimeState) → IsAhead n last row → IsAhead 0 last row
IsAhead-weakens n last row (inl done) = inl done
IsAhead-weakens n last row (inr s) = inr (record {
  told = s.told;
  status = s.status;
  live = s.live;
  count = omega arith;
  since = s.since;
  started = s.started;
  candidate = s.candidate;
})

-- the confirmation that the row before a page has
at_confirmation :
    (row : AimeState) (now : Time)
    → row.recovered ≡ false
    → IsTold row
    → starts_over row now ≡ false
    → IsStage 0 row.confirmation_at row
at_confirmation row now live u over = record {
  told = u;
  status = ground arith;
  live = live;
  count = omega arith;
  since = refl;
  started = ground arith;
  candidate = ground arith;
}

-- after a page the row is at a stage that began at that page or before
pub first-IsAhead :
    (row : AimeState) (http : ℕ) (stamp : String) (now : Time)
    → 1 ≤ now
    → row.confirmation_at ≤ now
    → IsTold row
    → (last : Time) × (last ≤ now) × IsAhead 0 last (next_state row (page http) stamp now)
first-IsAhead row http stamp now later past u = elim (Bool-cases row.recovered) [
  | inl done ↦ (now, omega arith, inl (stays_recovered row http stamp now done))
  | inr live ↦ elim (Bool-cases (starts_over row now)) [
    | inl over ↦ (now, omega arith, inr (over-IsStage row http stamp now later live u over))
    | inr over ↦ elim (Bool-cases (ltb now (row.confirmation_at + minutes 5))) [
      | inl early ↦ (
        row.confirmation_at,
        past,
        inr (early-IsStage row http stamp now live u over (ground arith)),
      )
      | inr late ↦ (
        now,
        omega arith,
        IsAhead-weakens 1 now _ (
            IsStage-grows 0 row.confirmation_at row http stamp now (ground arith) (ground arith)
              (at_confirmation row now live u over)),
      )
    ]
  ]
]

-- a page five minutes after that, or later, starts the window or confirms
pub second-IsAhead :
    (last : Time) (row : AimeState) (http : ℕ) (stamp : String) (now : Time)
    → last + minutes 5 ≤ now
    → IsAhead 0 last row
    → IsAhead 0 now (next_state row (page http) stamp now)
second-IsAhead last row http stamp now late (inl done) =
    inl (stays_recovered row http stamp now done)
second-IsAhead last row http stamp now late (inr s) =
    elim (Bool-cases (leb now (last + minutes 10))) [
      | inl soon ↦
          IsAhead-weakens 1 now _ (IsStage-grows 0 last row http stamp now late (ground arith) s)
      | inr over ↦
          inr
            (over-IsStage row http stamp now (omega arith) s.live s.told (ground (arith, s.since)))
    ]
