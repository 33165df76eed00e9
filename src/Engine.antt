-- ===== src/Engine.antt =====
-- internal/engine: the request context, the filter chain executor and the snapshot registry.
pub mod Headers
pub mod Context
pub mod Access
pub mod Filter
pub mod Executor
pub mod Registry
pub mod Lifecycle
