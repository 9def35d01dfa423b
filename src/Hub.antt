-- ===== src/Hub.antt =====
-- internal/hub: the server between the askers and the daemons. `Limiter` is ratelimit.go, the
-- other modules are hub.go.
pub mod Limiter
pub mod Records
pub mod State
pub mod Sessions
pub mod Waiters
pub mod Dispatch
pub mod Frames
pub mod Access
pub mod Submit
pub mod Detail
pub mod Handlers
pub mod Feishu
pub mod Bindings
