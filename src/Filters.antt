-- ===== src/Filters.antt =====
-- internal/filters: the filters that chains are built from.
pub mod Query
pub mod ApiKey
pub mod Correlation
pub mod Cors
pub mod Deny
pub mod HeaderModifier
pub mod Jwt
pub mod RateLimiter
