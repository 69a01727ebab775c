-- ===== src/Moddb.antt =====
-- Package moddb: the client of the ModDB API, its caches, and the local search.
pub mod Types
pub mod Errors
pub mod Mapping
pub mod GameVersion
pub mod Search
pub mod Tags
pub mod Client
pub mod Answer
mod Tests
