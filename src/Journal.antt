-- ===== src/Journal.antt =====
-- internal/journal: the durable record of every deploy.
pub mod Defs
pub mod Table
pub mod Queries
pub mod Receipts
pub mod Ids
pub mod Once
pub mod Closing
pub mod Order
pub mod Newest
