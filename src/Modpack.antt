-- ===== src/Modpack.antt =====
-- Package modpack: which installed mods have updates in a catalog.
pub mod Semver
pub mod Types
pub mod Select
pub mod Report
mod Tests
