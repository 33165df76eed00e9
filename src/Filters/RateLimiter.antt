-- ===== src/Filters/RateLimiter.antt =====
-- internal/filters/rate_limiter: the rate limiter.
pub mod Options
pub mod Cost
pub mod Filter
pub mod Trust
pub mod FixedWindow
pub mod Quota
