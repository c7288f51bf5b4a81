-- ===== src/Processor.antt =====
-- The processor of lambda/processor.
pub mod Issue
pub mod Run
pub mod Scan
pub mod Ai
pub mod Config
pub mod Batch
