-- ===== src/Config.antt =====
-- internal/config: the workspaces of a client, and the checks of the configurations.
pub mod Workspaces
pub mod Validation
