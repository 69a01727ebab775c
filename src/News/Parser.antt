-- ===== src/News/Parser.antt =====
-- news/parser.go. xml.Unmarshal, time.Parse, url.Parse and the tokenizer of golang.org/x/net/html are
-- parameters.
pub mod Article
pub mod Feed
use vintagestory_go.Base.{
  ℕ, suc, ◌-◌, ltb, ◌==◌, Bool, true, false, not, ◌&&◌, ◌||◌, Option, none, some, List, [], ◌∷◌,
  ◌++◌, member, Text, text, is_empty, eq_text, if◌then◌else◌,
}
use vintagestory_go.Base.Int.{ℤ, ltb_ℤ}
use vintagestory_go.Base.Strings.{trim_space, has_prefix, equal_fold, fields, join, lt_text}
use vintagestory_go.Base.Sort.{sort_stable}
use vintagestory_go.Vshttp.Errors.{Sentinel, sentinel, wrapped, joined}
use vintagestory_go.Vshttp.Request.{Url, url_text}
use vintagestory_go.Vshttp.Json.{Decoded, decoded, undecoded, Result, ok, err}
use vintagestory_go.Base.Urls.{hostname}
use vintagestory_go.News.Types.{
  Item, RssItem, Token, text_token, start_tag, self_closing, end_tag, other_token, Layout, Readers,
}
use vintagestory_go.News.Wording.{truncate, maximum_summary_runes, category_of}

abbrev is_set : Option Text → Bool
is_set none = false
is_set (some s) = true

is_rejected : Url → Bool
is_rejected u =
    not (eq_text u.scheme (text "https"))
    || not (equal_fold (hostname u.host) (text "www.vintagestory.at"))
    || is_set u.user
    || not (is_empty u.raw_query)
    || not (is_empty u.fragment)
    || not (has_prefix u.path (text "/blog.html/news/"))

official_article : Option Url → Text
unfolding url_text is_rejected
official_article none = text ""
official_article (some u) =
    if is_rejected u then text "" else url_text (record u { host = text "www.vintagestory.at" })

official_image : Option Url → Text
unfolding url_text
official_image none = text ""
official_image (some u) =
    if not (eq_text u.scheme (text "https"))
      || not (equal_fold (hostname u.host) (text "media.vintagestory.at"))
      || is_set u.user
    then text ""
    else url_text (record u { host = text "media.vintagestory.at" })

-- The variables of the loop of parseDescription.
pub record Scan : Type 0 where
  pub words : Text
  pub skip_depth : ℕ
  pub image_url : Text
  pub article_url : Text

abbrev is_hidden : Text → Bool
is_hidden name = eq_text name (text "script") || eq_text name (text "style")

-- The `less` of the sort of parse.
unfoldable pub is_newer : Item → Item → Bool
is_newer a b =
    if not (ltb_ℤ a.published_at b.published_at) && not (ltb_ℤ b.published_at a.published_at)
    then lt_text a.id b.id
    else ltb_ℤ b.published_at a.published_at

module _ (io : Readers) where
  unfoldable pub canonical_article_url : Text → Text
  unfolding official_article
  canonical_article_url value = official_article (io.parse_url (trim_space value))

  unfoldable pub is_official_article_url : Text → Bool
  is_official_article_url value = not (is_empty (canonical_article_url value))

  unfoldable pub canonical_image_url : Text → Text
  unfolding official_image
  canonical_image_url value =
      let trimmed = trim_space value in
      official_image (
        io.parse_url (if has_prefix trimmed (text "//") then text "https:" ++ trimmed else trimmed))

  attribute : Text → Scan → Text × Text → Scan
  attribute name s (key, value) =
      let candidate = canonical_article_url value in
      if eq_text name (text "img") && eq_text key (text "src") && is_empty s.image_url
      then record s { image_url = canonical_image_url value }
      else if eq_text name (text "a") && eq_text key (text "href") && not (is_empty candidate)
      then record s { article_url = candidate }
      else s

  attributes : Text → Scan → List (Text × Text) → Scan
  unfolding attribute
  attributes name s [] = s
  attributes name s (a ∷ rest) = attributes name (attribute name s a) rest

  -- One round of the loop.
  unfoldable pub scan_token : Scan → Token → Scan
  unfolding attributes
  scan_token s (text_token t) =
      if s.skip_depth == 0 then record s { words = s.words ++ t ++ text " " } else s
  scan_token s (start_tag name attrs) =
      if is_hidden name then record s { skip_depth = suc s.skip_depth } else attributes name s attrs
  scan_token s (self_closing name attrs) = if is_hidden name then s else attributes name s attrs
  scan_token s (end_tag name) =
      if is_hidden name && ltb 0 s.skip_depth then record s { skip_depth = s.skip_depth - 1 } else s
  scan_token s other_token = s

  scan_tokens : Scan → List Token → Scan
  unfolding scan_token
  scan_tokens s [] = s
  scan_tokens s (t ∷ ts) = scan_tokens (scan_token s t) ts

  finish_scan : Bool → Scan → Text × (Text × Text)
  unfolding truncate
  finish_scan at_eof s =
      if at_eof
      then (
        truncate (join (fields s.words) (text " ")) maximum_summary_runes,
        (s.image_url, s.article_url),
      )
      else (text "", (s.image_url, s.article_url))

  -- func parseDescription: the summary, the image and the article.
  unfoldable pub parse_description : Text → Text × (Text × Text)
  unfolding scan_tokens finish_scan
  parse_description value =
      let (ts, at_eof) = io.tokens value in
      finish_scan at_eof (
        scan_tokens
          (record { words = text ""; skip_depth = 0; image_url = text ""; article_url = text "" })
          ts)

  either_time : Option ℤ → Option ℤ → Option ℤ
  either_time none t = t
  either_time (some s) t = some s

  with_time : RssItem → Option ℤ → Option Item
  unfolding category_of
  with_time raw none = none
  with_time raw (some at) =
      let title = trim_space raw.title in
      let (summary, (image, linked)) = parse_description raw.description in
      let direct = canonical_article_url raw.link in
      let article = if is_empty direct then linked else direct in
      if is_empty title || is_empty article
      then none
      else some (record {
        id = article;
        title = title;
        url = article;
        summary = summary;
        image_url = image;
        published_at = at;
        category = category_of title;
      })

  -- func normalize
  unfoldable pub normalize_item : RssItem → Option Item
  unfolding either_time with_time
  normalize_item raw = with_time raw (
      either_time (io.parse_time Layout.rfc1123z (trim_space raw.published_at))
        (io.parse_time Layout.rfc1123 (trim_space raw.published_at)))

  -- The loop of parse; `seen` are the ids so far.
  unfoldable pub collect : List Text → List RssItem → List Item
  collect seen [] = []
  collect seen (raw ∷ raws) = elim (normalize_item raw) [
    | none ↦ collect seen raws
    | some item ↦
        if member item.id seen then collect seen raws else item ∷ collect (item.id ∷ seen) raws
  ]

  sorted_or_error : List Item → Result (List Item)
  sorted_or_error [] = err (
      wrapped (text "official news feed contained no usable posts: ")
        (sentinel Sentinel.news_invalid_feed))
  sorted_or_error (i ∷ is) = ok (sort_stable is_newer (i ∷ is))

  parsed : Decoded (List RssItem) → Result (List Item)
  unfolding sorted_or_error collect
  parsed (undecoded e) = err (
      wrapped (text "decode official news feed: ")
        (joined (sentinel Sentinel.news_invalid_feed) (text ": ") e))
  parsed (decoded raws) = sorted_or_error (collect [] raws)

  -- func parse
  unfoldable pub parse : Text → Result (List Item)
  unfolding parsed
  parse content = parsed (io.parse_feed content)
