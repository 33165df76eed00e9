-- ===== src/Examples.antt =====
-- Concrete requests, chains and configurations on which the theorems apply.
mod Data
mod Chains
mod Streams
mod Headers
mod Snapshots
mod Rules
mod Configs
mod Callers
mod Policies
mod Tokens
mod Quotas
mod Keys
mod Origins
mod Operators
mod Waiting
mod Accepted
