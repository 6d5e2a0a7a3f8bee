-- ===== src/Tests.antt =====
-- Concrete runs of the operations, on the tables of `Platform.Sample`.
pub mod Data
pub mod Memories
pub mod Guardrails
pub mod Shares
pub mod Packages
pub mod Skills
pub mod Quotas
pub mod Queue
pub mod Rebuild
pub mod Projections
pub mod Searches
pub mod Sessions
