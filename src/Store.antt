-- ===== src/Store.antt =====
-- internal/store/store.go: the hub's append-only event store and its in-memory indexes, with the
-- records of internal/protocol/rest.go that it keeps. Each method of `jsonlStore` is an action on
-- a `Store`; the mutex makes every method one step. The proofs are in the modules below.
pub mod Records
pub mod Library
pub mod State
pub mod Event
pub mod Journal
pub mod Pairing
pub mod Members
pub mod Queries
pub mod Queue
pub mod Audit
pub mod Resolve
pub mod Durable
pub mod Invites
pub mod Rounds
pub mod Reading
pub mod Compact
pub mod Recovery
pub mod Positions
pub mod Pages
