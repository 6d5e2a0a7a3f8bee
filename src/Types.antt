-- ===== src/Types.antt =====
-- The records and enumerations of the program, one module for each part.
pub mod Sharing
pub mod Access
pub mod Memory
pub mod Working
pub mod Ingestion
pub mod Projections
pub mod Catalog
pub mod Events
pub mod Quota
