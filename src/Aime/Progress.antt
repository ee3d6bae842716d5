-- ===== src/Aime/Progress.antt =====
-- How an incident of Aime ends, and that it ends once.
use musecat_backend_core.Prelude.{ℕ, ◌+◌, ◌≤◌, ◌≡◌, refl, arith, String, true}
use musecat_backend_core.Xp.Kinds.{Time}
use musecat_backend_core.Aime.Probe.{Source, AimeState, minutes, next_state}
use musecat_backend_core.Aime.Recovery.{AimeReached, begun, probed, telegram_told, discord_told}
use musecat_backend_core.Aime.Stages.{
  IsTold, page, IsAhead-grows, IsAhead-recovers, first-IsAhead, second-IsAhead,
}

-- what later rows keep of an incident that has recovered
abbrev pub SameIncident : AimeState → AimeState → Type 0
SameIncident start row = (row.recovered ≡ true) × (row.incident ≡ start.incident)

next_state-SameIncident :
    (start row : AimeState) (source : Source) (stamp : String) (now : Time)
    → SameIncident start row
    → SameIncident start (next_state row source stamp now)
unfolding next_state
next_state-SameIncident start row source stamp now (done, same) = rw done (refl, same)

-- Once an incident has recovered it stays recovered, and no later probe, whatever it observes, opens another one.
pub recovery_is_final :
    (start row : AimeState)
    → start.recovered ≡ true
    → AimeReached start row
    → SameIncident start row
recovery_is_final start _ done begun = (done, refl)
recovery_is_final start _ done (probed row source stamp now before) =
    next_state-SameIncident start row source stamp now (recovery_is_final start row done before)
recovery_is_final start _ done (telegram_told row before) = recovery_is_final start row done before
recovery_is_final start _ done (discord_told row before) = recovery_is_final start row done before

-- An incident ends: whatever the row of an incident of which both channels of operations were told, five available
-- pages, the second at least five minutes after the first, and each later one five to ten minutes after the one
-- before, recover it, if the clock of the first is not before the confirmation of the row.
pub five_pages_recover :
    (row : AimeState) (http : ℕ) (stamp : String) (t₀ t₁ t₂ t₃ t₄ : Time)
    → IsTold row
    → 1 ≤ t₀
    → row.confirmation_at ≤ t₀
    → t₀ + minutes 5 ≤ t₁
    → t₁ + minutes 5 ≤ t₂
    → t₂ ≤ t₁ + minutes 10
    → t₂ + minutes 5 ≤ t₃
    → t₃ ≤ t₂ + minutes 10
    → t₃ + minutes 5 ≤ t₄
    → t₄ ≤ t₃ + minutes 10
    → let first = next_state row (page http) stamp t₀ in
      let second = next_state first (page http) stamp t₁ in
      let third = next_state second (page http) stamp t₂ in
      let fourth = next_state third (page http) stamp t₃ in
      (next_state fourth (page http) stamp t₄).recovered ≡ true
five_pages_recover row http stamp t₀ t₁ t₂ t₃ t₄ u h past late₁ late₂ soon₂ late₃ soon₃ late₄
      soon₄ =
    let (last, before, first) = first-IsAhead row http stamp t₀ h past u in
    IsAhead-recovers t₃ _ http stamp t₄ late₄ soon₄ (
      IsAhead-grows 1 t₂ _ http stamp t₃ late₃ soon₃ (
        IsAhead-grows 0 t₁ _ http stamp t₂ late₂ soon₂
          (second-IsAhead last _ http stamp t₁ (omega arith) first)))
