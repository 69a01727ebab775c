-- ===== src/Servers.antt =====
-- Package servers: the public server catalog, in servers/.
pub mod Types
pub mod Tree
pub mod Patterns
pub mod Entry
pub mod Listing
pub mod Detail
pub mod Errors
pub mod Location
pub mod Client
mod Tests
