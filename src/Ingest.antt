-- ===== src/Ingest.antt =====
-- The ingest handler of lambda/ingest.
pub mod Envelope
pub mod Auth
pub mod Project
pub mod Dsn
pub mod EventId
pub mod Keys
pub mod Persist
pub mod Compress
pub mod RateLimit
pub mod Registry
pub mod Texts
pub mod Respond
pub mod Handler
pub mod Config
pub mod Lambda
