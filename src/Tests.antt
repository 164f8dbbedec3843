-- ===== src/Tests.antt =====
-- Concrete inputs: each theorem with hypotheses applied once.
pub mod Data
mod Base
mod Checks
mod Reports
mod Limits
mod Commands
mod Members
mod Proxy
mod Files
mod Runs
mod Steady
