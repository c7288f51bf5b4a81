-- ===== src/Query.antt =====
-- The query handler of lambda/query.
pub mod Expression
pub mod Cursor
pub mod Key
pub mod Limit
pub mod Events
pub mod Registry
pub mod Config
pub mod Handler
