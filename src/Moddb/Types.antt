-- ===== src/Moddb/Types.antt =====
-- moddb/models.go, and what client.go reads from the JSON of the API. A time is its nanoseconds.
use vintagestory_go.Base.{ℕ, Bool, Option, List, Text}
use vintagestory_go.Base.Int.{ℤ}
use vintagestory_go.Vshttp.Errors.{Error}

pub data Side : Type 0 where
  client server both unknown : Side

pub record Mod : Type 0 where
  pub id : Text
  pub slug : Text
  pub name : Text
  pub author_name : Text
  pub summary : Text
  pub image_url : Text
  pub latest_version : Text
  pub side : Side
  pub game_versions : List Text
  pub mod_id_strings : List Text
  pub tags : List Text
  pub downloads : ℤ
  pub created_at : Option ℤ
  pub updated_at : Option ℤ

pub record Screenshot : Type 0 where
  pub url : Text
  pub caption : Text

-- The fields of Release that the client sets; the others keep their zero values.
pub record Release : Type 0 where
  pub id : Text
  pub version : Text
  pub game_versions : List Text
  pub release_type : Text
  pub file_name : Text
  pub download_url : Text
  pub published_at : Option ℤ
  pub changelog : Text

-- The fields of ModDetails that the client sets.
pub record ModDetails : Type 0 where
  pub base : Mod
  pub description : Text
  pub screenshots : List Screenshot
  pub releases : List Release
  pub website_url : Text
  pub source_url : Text

-- An empty Side sets no filter.
pub record SearchOptions : Type 0 where
  pub text : Text
  pub game_version : Text
  pub sort : Text
  pub side : Option Side
  pub updated_after : Option ℤ
  pub tags : List Text
  pub page : ℤ
  pub page_size : ℤ

pub record Tag : Type 0 where
  pub name : Text
  pub count : ℕ

-- The numbers of a result are never negative.
pub record SearchResult : Type 0 where
  pub items : List Mod
  pub page : ℕ
  pub page_size : ℕ
  pub total_items : ℕ
  pub total_pages : ℕ
  pub has_next : Bool
  pub warning : Error

pub record ApiSummary : Type 0 where
  pub mod_id : ℤ
  pub downloads : ℤ
  pub name : Text
  pub summary : Text
  pub author : Text
  pub side : Text
  pub type : Text
  pub last_released : Text
  pub mod_id_strings : List Text
  pub url_alias : Option Text
  pub logo : Option Text
  pub tags : List Text

pub record ModsResponse : Type 0 where
  pub status_code : Text
  pub mods : List ApiSummary

pub record ApiRelease : Type 0 where
  pub release_id : ℤ
  pub main_file : Text
  pub filename : Text
  pub tags : List Text
  pub mod_version : Text
  pub created : Text
  pub changelog : Text

pub record ApiDetail : Type 0 where
  pub mod_id : ℤ
  pub name : Text
  pub text : Text
  pub author : Text
  pub url_alias : Text
  pub logo : Text
  pub homepage_url : Text
  pub source_code_url : Text
  pub downloads : ℤ
  pub side : Text
  pub created : Text
  pub last_released : Text
  pub tags : List Text
  pub releases : List ApiRelease
  pub screenshots : List Text

pub record ModResponse : Type 0 where
  pub status_code : Text
  pub mod_detail : ApiDetail
