-- ===== src/Config.antt =====
-- internal/config: the configuration, its defaults and its validation.
pub mod Limits
pub mod Routing
pub mod Server
pub mod Redis
pub mod Parser
