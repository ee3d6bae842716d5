-- ===== src/Aime/Recovery.antt =====
-- When an incident of Aime counts as recovered.
use musecat_backend_core.Prelude.{
  ℕ, ◌+◌, ◌≤◌, ◌≡◌, refl, subst, arith, inl, inr, String, Bool, true, false, not, ◌&&◌,
  if◌then◌else◌, str_eq, ltb, leb, ◌==◌, Bool-cases, if-holds, if-holds_when,
}
use musecat_backend_core.Xp.Kinds.{Time}
use musecat_backend_core.Aime.Probe.{
  Observed, is_available, is_blocked, Source, Stored, web, is_web, AimeState, minutes, reset,
  with_candidate, starts_over, count_confirmation, confirm, drop_old, open_incident, observe,
  next_state,
}

-- what a row of aime_status satisfies: at most three confirmations, and a recovery only of an incident, with three
-- confirmations and after both channels of operations were told
abbrev pub IsEarned : Bool → AimeState → Type 0
IsEarned true row =
    (row.confirmations ≡ 3)
    × (row.ops_telegram_sent ≡ true)
    × (row.ops_discord_sent ≡ true)
    × (str_eq row.incident "" ≡ false)
IsEarned false row = row.confirmations ≤ 3

abbrev pub IsSound : AimeState → Type 0
IsSound row = IsEarned row.recovered row

count-IsSound :
    (row : AimeState) (now : Time)
    → row.recovered ≡ false
    → str_eq row.incident "" ≡ false
    → row.confirmations ≤ 3
    → IsSound (count_confirmation row now)
count-IsSound row now live named few =
    let count = if ltb row.confirmations 2 then row.confirmations + 1 else 3 in
    elim (Bool-cases (leb 3 count && row.ops_telegram_sent && row.ops_discord_sent)) [
      | inl e ↦ rw e (ground arith, ground arith, ground arith, named)
      | inr e ↦ rw (e, live) (ground arith)
    ]

-- the rows before the recovery
abbrev Pending : AimeState → Type 0
Pending row = (row.recovered ≡ false) × (row.confirmations ≤ 3)

of_Pending : (row : AimeState) → Pending row → IsSound row
of_Pending row (live, few) = rw live few

reset-Pending : (row : AimeState) (now : Time) → Pending row → Pending (reset row now)
reset-Pending row now (live, few) = (live, omega arith)

-- the rows of an incident before its recovery
abbrev InIncident : AimeState → Type 0
InIncident row = (str_eq row.incident "" ≡ false) × Pending row

with_candidate-InIncident :
    (row : AimeState) (now : Time) → InIncident row → InIncident (with_candidate row now)
with_candidate-InIncident row now (named, pending) =
    if-holds InIncident (row.ops_candidate_at == 0) (named, pending) (named, pending)

confirm-IsSound : (row : AimeState) (now : Time) → InIncident row → IsSound (confirm row now)
unfolding confirm
confirm-IsSound row now incident =
    let candidate = with_candidate row now in
    let (named, pending) = with_candidate-InIncident row now incident in
    if-holds IsSound (starts_over row now)
      (of_Pending (reset candidate now) (reset-Pending candidate now pending))
      (if-holds IsSound (leb (row.confirmation_at + minutes 5) now)
        (count-IsSound candidate now pending.0 named pending.1) (of_Pending candidate pending))

open_incident-Pending :
    (row : AimeState) (observed : Observed) (stamp : String)
    → Pending row
    → Pending (open_incident row observed stamp)
open_incident-Pending row observed stamp p =
    if-holds Pending (is_blocked observed && str_eq row.incident "") p p

drop_old-Pending : (row : AimeState) (now : Time) → Pending row → Pending (drop_old row now)
drop_old-Pending row now p = if-holds Pending (is_web row.status) p (reset-Pending row now p)

observe-IsSound :
    (row : AimeState) (observed : Observed) (stamp : String) (now : Time)
    → Pending row
    → IsSound (observe row observed stamp now)
unfolding observe
observe-IsSound row observed stamp now p =
    let opened = open_incident (drop_old row now) observed stamp in
    let pending =
      open_incident-Pending (drop_old row now) observed stamp (drop_old-Pending row now p) in
    if-holds IsSound (not (is_available observed))
      (of_Pending (reset opened now) (reset-Pending opened now pending))
      (if-holds_when IsSound (not (str_eq opened.incident ""))
        (λ e. confirm-IsSound opened now (ground arith, pending)) (λ e. of_Pending opened pending))

-- what a probe stores beside the recovery
stored-IsEarned :
    (live : Bool) (row : AimeState) (status : Stored) (http : ℕ) (now : Time)
    → IsEarned live row
    → IsEarned live (record row { status = status; http_status = http; checked_at = now })
stored-IsEarned true row status http now s = s
stored-IsEarned false row status http now s = s

next_state-IsSound :
    (row : AimeState) (source : Source) (stamp : String) (now : Time)
    → IsSound row
    → IsSound (next_state row source stamp now)
unfolding next_state
next_state-IsSound row source stamp now s =
    let seen = if row.recovered then row else observe row source.status stamp now in
    stored-IsEarned seen.recovered seen (web source.status) source.http_status now (
      if-holds_when IsSound row.recovered (λ e. s)
        (λ e. observe-IsSound row source.status stamp now (e, subst (λ b. IsEarned b row) e s)))

-- the rows of aime_status that probes and the reports of the two channels of operations reach
pub data AimeReached (start : AimeState) : AimeState → Type 0 where
  begun : AimeReached start start
  probed :
      (row : AimeState) (source : Source) (stamp : String) (now : Time)
      → AimeReached start row
      → AimeReached start (next_state row source stamp now)
  telegram_told :
      (row : AimeState)
      → AimeReached start row
      → AimeReached start (record row { ops_telegram_sent = true })
  discord_told :
      (row : AimeState)
      → AimeReached start row
      → AimeReached start (record row { ops_discord_sent = true })

telegram-IsEarned :
    (b : Bool) (row : AimeState)
    → IsEarned b row
    → IsEarned b (record row { ops_telegram_sent = true })
telegram-IsEarned true row (three, t, d, named) = (three, refl, d, named)
telegram-IsEarned false row s = s

discord-IsEarned :
    (b : Bool) (row : AimeState)
    → IsEarned b row
    → IsEarned b (record row { ops_discord_sent = true })
discord-IsEarned true row (three, t, d, named) = (three, t, refl, named)
discord-IsEarned false row s = s

-- Whatever the probes observe, at whatever times, from a sound row on, a row of aime_status counts at
-- most three confirmations, and it is recovered only after an incident began, three confirmations were counted
-- and both channels of operations were told.
pub AimeReached-IsSound :
    (start row : AimeState) → IsSound start → AimeReached start row → IsSound row
AimeReached-IsSound start _ s begun = s
AimeReached-IsSound start _ s (probed row source stamp now before) =
    next_state-IsSound row source stamp now (AimeReached-IsSound start row s before)
AimeReached-IsSound start _ s (telegram_told row before) =
    telegram-IsEarned row.recovered row (AimeReached-IsSound start row s before)
AimeReached-IsSound start _ s (discord_told row before) =
    discord-IsEarned row.recovered row (AimeReached-IsSound start row s before)
