-- ===== src/Aime.antt =====
-- The recovery of Aime, service/usernotification/aime.go and aime_probe.go: what the probes observe, the incident
-- and its confirmations, the subscriptions and the notices of the recovery.
pub mod Probe
pub mod Recovery
pub mod Stages
pub mod Progress
pub mod Subscriptions
pub mod Notified
