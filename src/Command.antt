-- ===== src/Command.antt =====
-- cmd/galera-doctor/main.go: the audit command. The flag package, the printing of errors and the writing
-- of the state file are not modelled; what a pass reads of the world is a value.
pub mod Flags
pub mod Pass
pub mod Watch
pub mod Sorted
