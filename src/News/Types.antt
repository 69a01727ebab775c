-- ===== src/News/Types.antt =====
-- news/models.go and the types of news/parser.go.
use vintagestory_go.Base.{Bool, Option, List, Text}
use vintagestory_go.Base.Int.{ℤ}
use vintagestory_go.Vshttp.Request.{Url}
use vintagestory_go.Vshttp.Json.{Decoded}

pub data Category : Type 0 where
  news release development : Category

pub record Item : Type 0 where
  pub id : Text
  pub title : Text
  pub url : Text
  pub summary : Text
  pub image_url : Text
  pub published_at : ℤ
  pub category : Category

pub record RssItem : Type 0 where
  pub title : Text
  pub link : Text
  pub description : Text
  pub published_at : Text

-- A token of the tokenizer: a text, or a tag with its name and attributes.
pub data Token : Type 0 where
  text_token : Text → Token
  start_tag self_closing : Text → List (Text × Text) → Token
  end_tag : Text → Token
  other_token : Token

pub data Layout : Type 0 where
  rfc1123z rfc1123 : Layout

-- What the package calls. The path of a URL is its escaped path; the tokens end with io.EOF if the
-- flag says so.
pub record Readers : Type 0 where
  pub parse_feed : Text → Decoded (List RssItem)
  pub parse_time : Layout → Text → Option ℤ
  pub parse_url : Text → Option Url
  pub tokens : Text → List Token × Bool
