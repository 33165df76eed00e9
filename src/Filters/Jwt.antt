-- ===== src/Filters/Jwt.antt =====
-- internal/filters/jwt_auth: JWT authentication.
pub mod Admission
pub mod Assertions
pub mod Claims
pub mod Config
pub mod Cookies
pub mod Execute
pub mod Laws
pub mod Query
pub mod Stripping
pub mod Validate
