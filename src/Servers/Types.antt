-- ===== src/Servers/Types.antt =====
-- servers/models.go.
use vintagestory_go.Base.{Bool, false, List, [], Text, text}
use vintagestory_go.Base.Int.{ℤ, pos}

pub record Mod : Type 0 where
  pub name : Text
  pub version : Text
  pub url : Text

pub record Server : Type 0 where
  pub id : Text
  pub url : Text
  pub name : Text
  pub address : Text
  pub description : Text
  pub full_description : Text
  pub description_html : Text
  pub image_url : Text
  pub banner_url : Text
  pub game_version : Text
  pub players : ℤ
  pub max_players : ℤ
  pub mod_count : ℤ
  pub location : Text
  pub languages : List Text
  pub operator : Text
  pub operator_url : Text
  pub modified : Bool
  pub requires_whitelist : Bool
  pub password_protected : Bool
  pub joinable : Bool
  pub mods : List Mod

-- Server{}
abbrev pub no_server : Server
no_server = record {
  id = text "";
  url = text "";
  name = text "";
  address = text "";
  description = text "";
  full_description = text "";
  description_html = text "";
  image_url = text "";
  banner_url = text "";
  game_version = text "";
  players = pos 0;
  max_players = pos 0;
  mod_count = pos 0;
  location = text "";
  languages = [];
  operator = text "";
  operator_url = text "";
  modified = false;
  requires_whitelist = false;
  password_protected = false;
  joinable = false;
  mods = [];
}
