-- ===== src/Modpack/Types.antt =====
-- modpack/modpack.go: the data of the package.
use vintagestory_go.Base.{ℕ, Bool, List, Text}

pub record ModInstall : Type 0 where
  pub mod_id : Text
  pub name : Text
  pub version : Text
  pub file_name : Text
  pub managed : Bool
  pub enabled : Bool
  pub dependencies : List Text

pub record Build : Type 0 where
  pub game_version : Text
  pub mods : List ModInstall

pub record Dependency : Type 0 where
  pub mod_id : Text
  pub name : Text
  pub requirement : Text

pub data ModStatus : Type 0 where
  up_to_date update_available not_updatable unknown : ModStatus

pub data NotUpdatableReason : Type 0 where
  no_reason local_mod not_in_catalog catalog_error : NotUpdatableReason

pub record ModUpdate : Type 0 where
  pub mod_id : Text
  pub name : Text
  pub installed_version : Text
  pub target_version_id : Text
  pub target_version : Text
  pub status : ModStatus
  pub reason : NotUpdatableReason
  pub changelog : Text
  pub compatible : Bool
  pub prerelease : Bool
  pub added_deps : List Dependency
  pub removed_deps : List Dependency

pub record Summary : Type 0 where
  pub total_mods : ℕ
  pub up_to_date : ℕ
  pub updates_available : ℕ
  pub not_updatable_local : ℕ
  pub not_updatable_absent : ℕ
  pub not_updatable_catalog_error : ℕ
  pub incompatible : ℕ

pub record Report : Type 0 where
  pub build : Build
  pub mods : List ModUpdate
  pub summary : Summary

pub record ModVersion : Type 0 where
  pub id : Text
  pub version : Text
  pub release_type : Text
  pub game_versions : List Text
  pub changelog : Text
  pub dependencies : List Dependency

pub record ModInfo : Type 0 where
  pub id : Text
  pub latest_version : Text
  pub versions : List ModVersion
