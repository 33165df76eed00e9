-- ===== src/Grpc.antt =====
-- internal/grpc: the ext_proc stream handler.
pub mod Shutdown
pub mod Limiter
pub mod Mutators
pub mod Routing
pub mod Running
pub mod Messages
pub mod Replies
pub mod Handlers
