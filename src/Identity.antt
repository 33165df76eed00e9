-- ===== src/Identity.antt =====
-- internal/identity: the workload identity map that requests are matched against.
pub mod Workload
pub mod Index
