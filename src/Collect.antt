-- ===== src/Collect.antt =====
-- internal/cluster/collect.go: how the nodes are read.
pub mod Gate
pub mod Session
pub mod Tables
pub mod Links
pub mod Times
pub mod Nodes
pub mod Backups
pub mod All
pub mod ReadOnly
pub mod Sends
pub mod Order
pub mod Finish
pub mod Failures
