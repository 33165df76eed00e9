-- ===== src/Filters/ApiKey.antt =====
-- internal/filters/api_key and internal/config/filter_apikey.go: API key authentication.
pub mod Settings
pub mod Cache
pub mod Execute
pub mod Replay
