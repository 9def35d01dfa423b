-- ===== src/Store/Durable.antt =====
-- internal/store/store.go: what a restart gives back. The modules below compare the indexes in
-- memory with those that `applyEvent` rebuilds from the log.
pub mod View
pub mod Commit
pub mod Pairing
pub mod Members
pub mod Queries
pub mod Queue
pub mod Restart
pub mod Completion
