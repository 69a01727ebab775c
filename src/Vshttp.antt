-- ===== src/Vshttp.antt =====
-- Package vshttp: structured errors, status classification, bounded reads and bounded retries.
pub mod Errors
pub mod Message
pub mod Request
pub mod Retry
pub mod Status
pub mod Do
pub mod Json
pub mod Legacy
mod Tests
