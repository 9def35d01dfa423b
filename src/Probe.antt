-- ===== src/Probe.antt =====
-- internal/probe: the agent that answers a question from the workspace.
pub mod Text
pub mod Chat
pub mod Run
pub mod Sandbox
pub mod Tools
