-- ===== src/Audit.antt =====
-- internal/audit/audit.go: the thresholds, and the helpers that the checks share.
pub mod Groups
pub mod Identity
pub mod Rates
pub mod Writers
pub mod Drift
pub mod Readiness
pub mod Settings
pub mod Tables
pub mod Backup
pub mod Changes
pub mod Coverage
pub mod Increment
pub mod Clock
pub mod Peers
pub mod Appliers
pub mod Latency
pub mod Replication
pub mod Interpretation
pub mod Run
