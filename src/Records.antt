-- ===== src/Records.antt =====
-- The canonical record layer: records/*.ts.
pub mod Receipts
pub mod Types
pub mod Tables
pub mod Journal
pub mod Store
pub mod Notes
pub mod Queries
pub mod Purge
pub mod Upsert
pub mod Attachments
pub mod Projection
mod Tests
