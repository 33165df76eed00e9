-- ===== src/Selector.antt =====
-- internal/selector: traffic classes and the typed references of routes.
pub mod Traffic
pub mod Kinds
pub mod Validate
pub mod Parse
pub mod Address
pub mod Sets
