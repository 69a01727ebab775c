-- ===== src/Versions/Catalog.antt =====
-- versions/versions.go: Catalog, its fetch and its cache. The payload is read from JSON as a list of
-- ids with their files in the order in which Go walks the map.
pub mod Fetch
pub mod Cache
use Prim.Native.Nat.{Ordering}
use vintagestory_go.Base.{
  ℕ, ◌+◌, ltb, Bool, true, false, ◌&&◌, not, Option, none, some, List, [], ◌∷◌, Text, text, eq_text,
  if◌then◌else◌,
}
use vintagestory_go.Base.Int.{ℤ, pos}
use vintagestory_go.Base.Sort.{sort_stable}
use vintagestory_go.Vshttp.Errors.{Kind, Error, api}
use vintagestory_go.Vshttp.Request.{Request, Url, get}
use vintagestory_go.Vshttp.Retry.{RetryPolicy, default_retry_policy}
use vintagestory_go.Vshttp.Do.{Round}
use vintagestory_go.Vshttp.Json.{Decoded, Result, ok, err, fetch_json}
use vintagestory_go.Versions.Compare.{compare_versions}
use vintagestory_go.Versions.Errors.{legacy}
use vintagestory_go.Versions.Release.{
  Release, CatalogFile, Location, distribution_for, parse_release,
}

pub record Catalog : Type 0 where
  pub endpoint : Text
  pub platform : Text
  pub architecture : Text
  pub retry : RetryPolicy
  pub cached_at : ℕ
  pub cached : List Release

abbrev pub Payload : Type 0
Payload = List (Text × List (Text × CatalogFile))

-- files[key]
find_file : Text → List (Text × CatalogFile) → Option CatalogFile
find_file key [] = none
find_file key ((k, f) ∷ files) =
    let rest = find_file key files in if eq_text k key then some f else rest

is_gt : Ordering → Bool
is_gt Ordering.gt = true
is_gt _ = false

-- The `less` of sort.SliceStable: the newest release comes first.
unfoldable pub is_newer : Release → Release → Bool
unfolding is_gt
is_newer a b = is_gt (compare_versions a.id b.id)

-- The libraries that the package calls: http.ParseTime, json.Unmarshal, http.NewRequestWithContext,
-- strconv.ParseFloat and url.Parse.
pub record Env : Type 0 where
  pub until : Text → Option ℤ
  pub unmarshal : Text → Decoded Payload
  pub resolve : Text → Result Url
  pub scaled : Text → ℕ → Option ℤ
  pub parse_url : Text → Option Location

abbrev pub operation : Text
operation = text "versions: list catalog"

-- c.endpoint did not parse: no request is made.
bad_endpoint : Text → Error → Error
unfolding legacy
bad_endpoint endpoint cause = legacy (
    api
      (record {
        operation = operation;
        method = text "GET";
        endpoint = endpoint;
        status_code = 0;
        content_type = text "";
        kind = Kind.validation;
        retryable = false;
        retry_after = pos 0;
        body_size = 0;
        limit = 0;
        legacy = none;
      })
      cause)

-- limit of the body: 8 << 20
abbrev pub body_limit : ℕ
body_limit = 8_388_608

abbrev pub is_none_kept : List Release → Bool
is_none_kept [] = true
is_none_kept (r ∷ rs) = false

module _ (env : Env) where
  release_of : Text → Text → Text → Text × List (Text × CatalogFile) → Option Release
  unfolding find_file
  release_of key platform architecture (id, files) = elim (find_file key files) [
    | none ↦ none
    | some f ↦ parse_release env.scaled env.parse_url id f platform architecture
  ]

  cons_some : Option Release → List Release → List Release
  cons_some none rs = rs
  cons_some (some r) rs = r ∷ rs

  -- `for id, files := range payload`
  unfoldable pub releases_of : Text → Text → Text → Payload → List Release
  unfolding cons_some release_of
  releases_of key platform architecture [] = []
  releases_of key platform architecture (entry ∷ payload) =
      cons_some (release_of key platform architecture entry)
        (releases_of key platform architecture payload)

  unfoldable pub releases_for : Catalog → Payload → List Release
  unfolding distribution_for releases_of
  releases_for c payload = elim (distribution_for c.platform c.architecture) [
    | none ↦ []
    | some (key, arch) ↦ sort_stable is_newer (releases_of key c.platform arch payload)
  ]

  listed : Catalog → Option (Result Payload) → Option (Result (List Release))
  unfolding releases_for legacy
  listed c none = none
  listed c (some (err e)) = some (err (legacy e))
  listed c (some (ok payload)) = some (ok (releases_for c payload))

  abbrev pub request_to : Url → Request
  request_to u = record { method = get; url = some u; has_body = false }

  -- func (c *Catalog) fetch; Do, CheckStatus and DecodeJSON are those of FetchJSON.
  unfoldable pub fetch : Catalog → (ℕ → Round) → Option (Result (List Release))
  unfolding bad_endpoint listed
  fetch c rounds = elim (env.resolve c.endpoint) [
    | err e ↦ some (err (bad_endpoint c.endpoint e))
    | ok u ↦
        listed c
          (fetch_json env.until env.unmarshal c.retry operation (request_to u) body_limit rounds)
  ]

  -- A catalog answers from its cache for five minutes.
  abbrev pub is_fresh : Catalog → ℕ → Bool
  is_fresh c now = not (is_none_kept c.cached) && ltb now (c.cached_at + 300_000_000_000)

  store : Catalog → ℕ → Option (Result (List Release)) → Option (Catalog × Result (List Release))
  store c later none = none
  store c later (some (err e)) = some (c, err e)
  store c later (some (ok rs)) = some (record c { cached = rs; cached_at = later }, ok rs)

  -- func (c *Catalog) List under its mutex: `now` and `later` are the two readings of the clock.
  unfoldable pub list :
      Catalog → (now later : ℕ) → (ℕ → Round) → Option (Catalog × Result (List Release))
  unfolding fetch store
  list c now later rounds =
      if is_fresh c now then some (c, ok c.cached) else store c later (fetch c rounds)

abbrev pub official_catalog_url : Text
official_catalog_url = text "https://api.vintagestory.at/stable-unstable.json"

-- NewCatalog, for runtime.GOOS and runtime.GOARCH, and NewCatalogForPlatform.
unfoldable pub new_catalog_for_platform : Text → Text → Text → Catalog
new_catalog_for_platform endpoint platform architecture = record {
  endpoint = endpoint;
  platform = platform;
  architecture = architecture;
  retry = default_retry_policy;
  cached_at = 0;
  cached = [];
}

unfoldable pub new_catalog : Text → Text → Catalog
unfolding new_catalog_for_platform
new_catalog goos goarch = new_catalog_for_platform official_catalog_url goos goarch

unfoldable pub set_retry_policy : Catalog → RetryPolicy → Catalog
set_retry_policy c p = record c { retry = p }
