-- ===== src/News.antt =====
-- Package news: the official news feed.
pub mod Types
pub mod Wording
pub mod Parser
pub mod Client
pub mod Redirects
mod Tests
