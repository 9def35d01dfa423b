-- ===== src/Daemon.antt =====
-- internal/daemon: the client on a member's machine. `Dispatch` answers one query, `Serve` is the
-- life of the daemon with its connections and goroutines, and `Retry` the waits between connections.
pub mod Dispatch
pub mod State
pub mod Serve
pub mod Retry
