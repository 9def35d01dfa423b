-- ===== src/Tests.antt =====
-- Concrete stores and frames, and the theorems applied to them.
pub mod Fixtures
pub mod HubFixtures
mod Hub
pub mod Probe
pub mod Tools
mod Pairing
mod Queries
mod Restart
mod Compaction
mod Recovery
mod Config
mod Daemon
mod Feishu
