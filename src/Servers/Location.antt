-- ===== src/Servers/Location.antt =====
-- servers/client.go: detailURL and resolveURLs. url.Parse and URL.ResolveReference are parameters;
-- url.PathEscape, path.Join and URL.String are those of Go for an endpoint that is absolute, has a
-- path in the standard encoding and does not end with a lone question mark. The path of a Url is
-- here the decoded one.
pub mod Pages
use vintagestory_go.Base.{
  ℕ, ◌+◌, ◌/◌, ◌%◌, ltb, leb, ◌==◌, Bool, true, false, ◌&&◌, ◌||◌, List, [], ◌∷◌, ◌++◌, map, any,
  reverse, Text, text, is_empty, eq_text, if◌then◌else◌,
}
use vintagestory_go.Base.Strings.{split, join}
use vintagestory_go.Vshttp.Request.{Url, url_text}
use vintagestory_go.Vshttp.Json.{Result, ok, err}
use vintagestory_go.Servers.Types.{Mod, Server}

-- What stands as it is in every part of a URL.
abbrev pub is_unreserved : ℕ → Bool
is_unreserved c =
    (leb b'a' c && leb c b'z')
    || (leb b'A' c && leb c b'Z')
    || (leb b'0' c && leb c b'9')
    || any (λ d. d == c) (text "-_.~")

-- What url.PathEscape keeps, and what URL.String keeps of a path.
unfoldable pub is_segment_byte : ℕ → Bool
is_segment_byte c = is_unreserved c || any (λ d. d == c) (text "$&+:=@")

unfoldable pub is_path_byte : ℕ → Bool
is_path_byte c = is_unreserved c || any (λ d. d == c) (text "$&+,/:;=@")

abbrev pub upper_hex : ℕ → ℕ
upper_hex n = if ltb n 10 then 48 + n else 55 + n

unfoldable pub escape : (ℕ → Bool) → Text → Text
escape p [] = []
escape p (c ∷ s) =
    let rest = escape p s in
    if p c then c ∷ rest else b'%' ∷ upper_hex (c / 16) ∷ upper_hex (c % 16) ∷ rest

-- url.PathEscape(s)
unfoldable pub path_escape : Text → Text
unfolding escape is_segment_byte
path_escape s = escape is_segment_byte s

-- The element `..` of a path.
up : Bool → List Text → List Text
up true [] = []
up false [] = text ".." ∷ []
up rooted (top ∷ out) = if eq_text top (text "..") then text ".." ∷ top ∷ out else out

-- The elements of a cleaned path, the last one first.
unfoldable pub clean_parts : Bool → List Text → List Text → List Text
unfolding up
clean_parts rooted out [] = out
clean_parts rooted out (p ∷ ps) =
    clean_parts rooted
      (if is_empty p || eq_text p (text ".")
        then out
        else if eq_text p (text "..")
        then up rooted out
        else p ∷ out)
      ps

-- path.Clean(s)
unfoldable pub clean : Text → Text
unfolding clean_parts
clean [] = text "."
clean (c ∷ s) =
    let rooted = c == b'/' in
    let out = join (reverse (clean_parts rooted [] (split (c ∷ s) b'/'))) (text "/") in
    if rooted then text "/" ++ out else if is_empty out then text "." else out

abbrev pub present : List Text → List Text
present [] = []
present (p ∷ ps) = if is_empty p then present ps else p ∷ present ps

abbrev pub joined_path : List Text → Text
joined_path [] = text ""
joined_path (p ∷ ps) = clean (join (p ∷ ps) (text "/"))

-- path.Join(parts...)
unfoldable pub join_path : List Text → Text
unfolding clean
join_path parts = joined_path (present parts)

abbrev pub with_root : Text → Text
with_root [] = []
with_root (c ∷ s) = if c == b'/' then c ∷ s else b'/' ∷ c ∷ s

-- u.String()
unfoldable pub url_string : Url → Text
unfolding url_text escape is_path_byte
url_string u = url_text (record u { path = with_root (escape is_path_byte u.path) })

module _ (parse_url : Text → Result Url) where
  page_of : Result Url → Text → Result Text
  unfolding join_path path_escape url_string
  page_of (err e) id = err e
  page_of (ok u) id = ok (
      url_string (record u {
        path = join_path (u.path ∷ text "s" ∷ path_escape id ∷ []);
        raw_query = text "";
        fragment = text "";
      }))

  -- func detailURL
  unfoldable pub detail_url : Text → Text → Result Text
  unfolding page_of
  detail_url endpoint id = page_of (parse_url endpoint) id

  module _ (resolve_text : Url → Url → Text) where
    resolved : Url → Text → Result Url → Text
    resolved base value (err e) = value
    resolved base value (ok u) = resolve_text base u

    -- The closure `resolve`; `resolve_text` is ResolveReference followed by String.
    unfoldable pub resolve : Url → Text → Text
    unfolding resolved
    resolve base value = if is_empty value then value else resolved base value (parse_url value)

    abbrev pub resolve_mod : Url → Mod → Mod
    resolve_mod base m = record m { url = resolve base m.url }

    abbrev pub resolve_from : Result Url → Server → Server
    resolve_from (err e) s = s
    resolve_from (ok base) s = record s {
      url = resolve base s.url;
      image_url = resolve base s.image_url;
      banner_url = resolve base s.banner_url;
      operator_url = resolve base s.operator_url;
      mods = map (resolve_mod base) s.mods;
    }

    -- func resolveURLs
    unfoldable pub resolve_urls : Server → Text → Server
    unfolding resolve
    resolve_urls s base = resolve_from (parse_url base) s
