-- ===== src/Versions.antt =====
-- Package versions: the catalog of game releases.
pub mod Compare
pub mod Errors
pub mod Release
pub mod Catalog
mod Tests
