-- ===== src/Policy.antt =====
-- internal/policy: the manager that turns a configuration into the active policy.
pub mod Clients
pub mod Filters
pub mod Manager
