-- ===== src/Moddb/Mapping.antt =====
-- moddb/client.go: from the JSON of the API to the models. time.ParseInLocation and the two ways in
-- which parseScreenshot reads a raw JSON value are parameters.
use vintagestory_go.Base.{
  ◌==◌, Bool, false, not, ◌&&◌, ◌||◌, Option, none, some, List, [], ◌∷◌, map, keep, member, Text,
  text, is_empty, eq_text, if◌then◌else◌,
}
use vintagestory_go.Base.Int.{ℤ, pos, negsuc}
use vintagestory_go.Base.Strings.{trim_space, to_lower, contains, has_prefix, format_int, lt_text}
use vintagestory_go.Base.Sort.{sort_stable}
use vintagestory_go.Moddb.Types.{
  Side, Mod, Screenshot, Release, ModDetails, ApiSummary, ApiRelease, ApiDetail,
}

unfoldable pub normalize_side : Text → Side
normalize_side v =
    let s = to_lower (trim_space v) in
    if eq_text s (text "client")
    then Side.client
    else if eq_text s (text "server")
    then Side.server
    else if eq_text s (text "both")
    then Side.both
    else Side.unknown

unfoldable pub non_empty : List Text → List Text
non_empty v = keep (λ x. not (is_empty (trim_space x))) v

unfoldable pub release_type : Text → Text
release_type raw =
    let v = to_lower raw in
    if contains v (text "alpha")
    then text "alpha"
    else if contains v (text "beta") || contains v (text "rc") || contains v (text "pre")
    then text "beta"
    else text "stable"

-- The layouts of parseDate.
pub data Layout : Type 0 where
  date_time rfc3339 rfc3339_nano : Layout

first_date : List (Option ℤ) → Option ℤ
first_date [] = none
first_date (none ∷ ds) = first_date ds
first_date (some d ∷ ds) = some d

abbrev text_or_none : Option Text → Text
text_or_none none = text ""
text_or_none (some s) = s

first_of : List Text → Text
first_of [] = text ""
first_of (x ∷ xs) = x

abbrev pub is_zero : ℤ → Bool
is_zero (pos n) = n == 0
is_zero (negsuc n) = false

-- A JSON object: each key with its value, if that is a string.
abbrev pub Object : Type 0
Object = List (Text × Option Text)

string_at : Object → Text → Option Text
string_at [] k = none
string_at ((key, v) ∷ o) k = let rest = string_at o k in if eq_text key k then v else rest

shot_from : Object → List Text → Option Screenshot
unfolding string_at
shot_from o [] = none
shot_from o (k ∷ ks) =
    let rest = shot_from o ks in
    elim (string_at o k) [
      | none ↦ rest
      | some v ↦
          if has_prefix v (text "https://")
          then some (record { url = v; caption = text_or_none (string_at o (text "caption")) })
          else rest
    ]

-- A map used as a set, as the list of its keys.
insert_key : Text → List Text → List Text
insert_key v set = if member v set then set else v ∷ set

insert_keys : List Text → List Text → List Text
unfolding insert_key
insert_keys [] set = set
insert_keys (v ∷ vs) set = insert_keys vs (insert_key v set)

version_set : List ApiRelease → List Text → List Text
unfolding insert_keys
version_set [] set = set
version_set (r ∷ rs) set = version_set rs (insert_keys r.tags set)

latest_of : List Release → Text
latest_of [] = text ""
latest_of (r ∷ rs) = r.version

-- What the package calls: time.ParseInLocation in UTC, and json.Unmarshal into a string or an object.
pub record Readers : Type 0 where
  pub parse_time : Layout → Text → Option ℤ
  pub as_string : Text → Option Text
  pub as_object : Text → Option Object

module _ (io : Readers) where
  unfoldable pub parse_date : Text → Option ℤ
  unfolding first_date
  parse_date v = first_date (
      map (λ l. io.parse_time l (trim_space v))
        (Layout.date_time ∷ Layout.rfc3339 ∷ Layout.rfc3339_nano ∷ []))

  shot_of_object : Option Object → Option Screenshot
  unfolding shot_from
  shot_of_object none = none
  shot_of_object (some o) =
      shot_from o (text "mainfile" ∷ text "url" ∷ text "file" ∷ text "filename" ∷ text "image" ∷ [])

  unfoldable pub parse_screenshot : Text → Option Screenshot
  unfolding shot_of_object
  parse_screenshot raw = elim (io.as_string raw) [
    | none ↦ shot_of_object (io.as_object raw)
    | some direct ↦
        if has_prefix direct (text "https://")
        then some (record { url = direct; caption = text "" })
        else shot_of_object (io.as_object raw)
  ]

  slug_of : ApiSummary → Text
  unfolding first_of
  slug_of x =
      if is_empty (text_or_none x.url_alias)
      then first_of x.mod_id_strings
      else text_or_none x.url_alias

  unfoldable pub mod_of : ApiSummary → Mod
  unfolding slug_of
  mod_of x = record {
    id = format_int x.mod_id;
    slug = slug_of x;
    name = x.name;
    author_name = x.author;
    summary = x.summary;
    image_url = text_or_none x.logo;
    latest_version = text "";
    side = normalize_side x.side;
    game_versions = [];
    mod_id_strings = non_empty x.mod_id_strings;
    tags = non_empty x.tags;
    downloads = x.downloads;
    created_at = none;
    updated_at = parse_date x.last_released;
  }

  -- The loop of fetchMods keeps the entries of type "mod" that have an id.
  unfoldable pub mods_of : List ApiSummary → List Mod
  unfolding mod_of
  mods_of xs = map mod_of (keep (λ x. eq_text x.type (text "mod") && not (is_zero x.mod_id)) xs)

  release_of : ApiRelease → Release
  release_of r = record {
    id = format_int r.release_id;
    version = r.mod_version;
    game_versions = non_empty r.tags;
    release_type = release_type r.mod_version;
    file_name = r.filename;
    download_url = r.main_file;
    published_at = parse_date r.created;
    changelog = r.changelog;
  }

  keep_shots : List Text → List Screenshot
  keep_shots [] = []
  keep_shots (raw ∷ raws) = elim (parse_screenshot raw) [
    | none ↦ keep_shots raws
    | some s ↦ s ∷ keep_shots raws
  ]

  unfoldable pub map_details : ApiDetail → ModDetails
  unfolding release_of keep_shots version_set latest_of
  map_details x =
      let releases = map release_of x.releases in
      record {
        base = record {
          id = format_int x.mod_id;
          slug = x.url_alias;
          name = x.name;
          author_name = x.author;
          summary = text "";
          image_url = x.logo;
          latest_version = latest_of releases;
          side = normalize_side x.side;
          game_versions = sort_stable lt_text (version_set x.releases []);
          mod_id_strings = [];
          tags = non_empty x.tags;
          downloads = x.downloads;
          created_at = parse_date x.created;
          updated_at = parse_date x.last_released;
        };
        description = x.text;
        screenshots = keep_shots x.screenshots;
        releases = releases;
        website_url = x.homepage_url;
        source_url = x.source_code_url;
      }
