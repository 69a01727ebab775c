-- ===== src/Versions/Tests.antt =====
-- Runs of package versions: two releases in the catalog and one that does not parse.
use Prim.Native.Nat.{Ordering}
use vintagestory_go.Base.{
  ℕ, ◌*◌, ◌++◌, ◌≡◌, refl, true, Option, none, some, List, [], ◌∷◌, Text, text,
}
use vintagestory_go.Base.Int.{ℤ, pos}
use vintagestory_go.Base.Strings.{
  is_digit, atoi, trim_space, to_lower, trim_prefix, contains, fields, lt_text, eq_text,
}
use vintagestory_go.Base.Sort.{sort_stable}
use vintagestory_go.Vshttp.Errors.{Error, nil, Fault, fault, is, has_fault, url_error}
use vintagestory_go.Vshttp.Request.{Url}
use vintagestory_go.Vshttp.Retry.{default_retry_policy, normalize, backoff}
use vintagestory_go.Vshttp.Status.{
  classify, transport_error, retryable_status, status_error, parse_retry_after, check_status,
}
use vintagestory_go.Vshttp.Do.{Round, failed, answered, do_request, read_body}
use vintagestory_go.Vshttp.Json.{decoded, ok, err, decode_json, fetch_json}
use vintagestory_go.Versions.Errors.{legacy}
use vintagestory_go.Versions.Compare.{compare_versions, split_version}
use vintagestory_go.Versions.Compare.Padded.{padded, compare_versions-padded}
use vintagestory_go.Base.Urls.{hostname}
use vintagestory_go.Versions.Release.{
  Release, CatalogFile, Location, base_name, is_checksum, channel_of, distribution_for,
  parse_file_size, parse_release,
}
use vintagestory_go.Versions.Release.Laws.{IsTrusted, parse_release-IsTrusted}
use vintagestory_go.Versions.Catalog.{
  Catalog, Payload, Env, is_newer, releases_for, fetch, list, new_catalog_for_platform,
  official_catalog_url,
}
use vintagestory_go.Versions.Catalog.Cache.{
  History, created, asked, sources, IsProvided, list-IsProvided,
}

-- What the comparison of versions computes with.
comparing : Unit {0}
unfolding compare_versions split_version trim_space to_lower trim_prefix is_digit atoi lt_text
comparing = tt

candidate_before_final : compare_versions (text "1.20.0-rc.1") (text "v1.20") ≡ Ordering.lt
unfolding comparing
candidate_before_final = refl

tenth_after_ninth : compare_versions (text "1.20.10") (text "1.20.9") ≡ Ordering.gt
unfolding comparing
tenth_after_ninth = refl

compare_versions-padded_example :
    compare_versions (text "1.20") (text "1.20.0.0")
    ≡ padded (split_version (text "1.20")) (split_version (text "1.20.0.0"))
compare_versions-padded_example = compare_versions-padded (text "1.20") (text "1.20.0.0")

abbrev digest : Text
digest = text "0123456789ABCDEF0123456789abcdef"

abbrev file_of : Text → CatalogFile
file_of name = record {
  filename = name;
  file_size = text "5 MB";
  md5 = digest;
  cdn = name;
  latest = pos 1;
}

abbrev at_cdn : Text → Location
at_cdn path = record {
  scheme = text "https";
  host = text "cdn.vintagestory.at:443";
  path = path;
  printed = path;
}

-- A parser that puts every name below the stable directory.
abbrev parse_any : Text → Option Location
parse_any name = some (at_cdn (text "/gamefiles/stable/" ++ name))

abbrev scaled_by : Text → ℕ → Option ℤ
scaled_by digits m = some (pos (5 * m))

abbrev game : Text → Release
game id = record {
  id = id;
  name = id;
  channel = text "stable";
  platform = text "linux";
  architecture = text "amd64";
  filename = text "vs.tar.gz";
  download_url = text "/gamefiles/stable/vs.tar.gz";
  checksum = text "0123456789abcdef0123456789abcdef";
  checksum_algorithm = text "md5";
  download_size = pos 5_000_000;
  latest = true;
}

-- What the check of a file computes with.
parsing : Unit {0}
unfolding parse_release parse_file_size fields trim_space to_lower contains base_name hostname
    is_checksum channel_of eq_text
parsing = tt

abbrev archive : CatalogFile
archive = file_of (text "vs.tar.gz")

game_parsed :
    parse_release scaled_by parse_any (text " 1.20.9") archive (text "linux") (text "amd64")
    ≡ some (game (text "1.20.9"))
unfolding parsing
game_parsed = refl

parse_release-IsTrusted_example :
    IsTrusted parse_any (text " 1.20.9") archive (game (text "1.20.9"))
parse_release-IsTrusted_example =
    parse_release-IsTrusted scaled_by parse_any (text " 1.20.9") archive (text "linux")
      (text "amd64") (game (text "1.20.9")) game_parsed

-- The check of the file name lets the parent directory pass.
parent_passes :
    parse_release scaled_by parse_any
      (text "1.20.9")
      (file_of (text ".."))
      (text "linux")
      (text "amd64")
    ≡ some (record (game (text "1.20.9")) {
      filename = text "..";
      download_url = text "/gamefiles/stable/..";
    })
unfolding parsing
parent_passes = refl

abbrev payload : Payload
payload =
    (text "1.20.9", (text "linux", archive) ∷ [])
    ∷ (text "1.20.10", (text "windows", archive) ∷ (text "linux", archive) ∷ [])
    ∷ (text "1.20.11", (text "linux", file_of (text "a/b")) ∷ [])
    ∷ []

abbrev catalog_url : Url
catalog_url = record {
  scheme = text "https";
  user = none;
  host = text "api.vintagestory.at";
  path = text "/stable-unstable.json";
  raw_query = text "";
  fragment = text "";
}

abbrev env : Env
env = record {
  until = λ v. none;
  unmarshal = λ b. decoded payload;
  resolve = λ e. ok catalog_url;
  scaled = scaled_by;
  parse_url = parse_any;
}

abbrev catalog : Catalog
catalog = record {
  endpoint = official_catalog_url;
  platform = text "linux";
  architecture = text "amd64";
  retry = default_retry_policy;
  cached_at = 0;
  cached = [];
}

abbrev answers : ℕ → Round
answers k = record {
  dice = 0;
  interrupt = none;
  reply = answered (record {
    status_code = 200;
    status = text "";
    content_type = text "";
    retry_after = text "";
    content = text "{}";
    fault = nil;
  });
  ctx_err = nil;
}

abbrev resets : ℕ → Round
resets k = record {
  dice = 10;
  interrupt = none;
  reply = failed (url_error (text "Get: ") (fault Fault.other (text "connection reset")));
  ctx_err = nil;
}

-- What a fetch computes with.
fetching : Unit {0}
unfolding comparing parsing do_request transport_error classify is has_fault backoff normalize
    read_body retryable_status status_error parse_retry_after fetch_json check_status decode_json
    legacy releases_for distribution_for sort_stable is_newer fetch list
fetching = tt

abbrev releases : List Release
releases = game (text "1.20.10") ∷ game (text "1.20.9") ∷ []

fetched : fetch env catalog answers ≡ some (ok releases)
unfolding fetching
fetched = refl

abbrev filled : Catalog
filled = record catalog { cached = releases; cached_at = 1_000 }

listed_run : list env catalog 900 1_000 answers ≡ some (filled, ok releases)
unfolding fetching
listed_run = refl

catalog-History : History env catalog
unfolding new_catalog_for_platform
catalog-History = created official_catalog_url (text "linux") (text "amd64")

filled-History : History env filled
filled-History = asked catalog-History 900 1_000 answers (ok releases) listed_run

abbrev silent : ℕ → Round
silent k = record { dice = 0; interrupt = none; reply = failed nil; ctx_err = nil }

listed_again : list env filled 1_001 1_002 silent ≡ some (filled, ok releases)
unfolding fetching
listed_again = refl

list-IsProvided_example : IsProvided env (sources env filled-History) filled 1_001 silent releases
list-IsProvided_example =
    list-IsProvided env filled 1_001 1_002 silent filled releases filled-History listed_again

-- The endpoint does not parse.
abbrev broken : Env
broken = record env { resolve = λ e. err (fault Fault.other (text "missing scheme")) }

abbrev late : ℕ
late = 400_000_000_000

refresh_failed_later : (e : Error) × (list broken filled late late answers ≡ some (filled, err e))
unfolding fetching
refresh_failed_later = (_, refl)
