-- ===== src/Moddb/Client.antt =====
-- moddb/client.go: the caches of Client, and the calls that read and fill them. A call is one flight:
-- callers that share a flight get its result. An interrupt is the error of a context that ends before
-- the flight does; the flight goes on without the caller, and the client returned is the one after it.
pub mod Stale
pub mod Flights
pub mod Details
use vintagestory_go.Base.{
  ℕ, ◌+◌, ltb, ◌==◌, Bool, true, false, not, ◌&&◌, Option, none, some, List, [], ◌∷◌, ◌++◌, reverse,
  Text, text, eq_text, if◌then◌else◌,
}
use vintagestory_go.Base.Int.{ℤ}
use vintagestory_go.Vshttp.Errors.{Kind, Sentinel, Error, nil, sentinel, joined}
use vintagestory_go.Vshttp.Request.{Url, Request, get}
use vintagestory_go.Vshttp.Retry.{RetryPolicy, default_retry_policy}
use vintagestory_go.Vshttp.Do.{Round}
use vintagestory_go.Vshttp.Json.{Decoded, Result, ok, err, fetch_json}
use vintagestory_go.Moddb.Types.{Mod, ModDetails, ModsResponse, ModResponse}
use vintagestory_go.Moddb.Errors.{legacy, package_error, api_status_error}
use vintagestory_go.Moddb.Mapping.{Readers, mods_of}

pub record CachedDetails : Type 0 where
  pub value : ModDetails
  pub fetched_at : ℕ

pub record CachedCatalog : Type 0 where
  pub items : List Mod
  pub at : ℕ

-- Clock readings are nanoseconds of the monotonic clock; a map is a list of its keys and values, of
-- which the first counts.
pub record Client : Type 0 where
  pub base_url : Text
  pub retry : RetryPolicy
  pub catalog : List Mod
  pub catalog_at : ℕ
  pub catalog_by_gv : List (Text × CachedCatalog)
  pub details : List (Text × CachedDetails)

abbrev pub find {ℓ} : {A : Type ℓ} → Text → List (Text × A) → Option A
find key [] = none
find key ((k, a) ∷ entries) = if eq_text k key then some a else find key entries

-- The libraries that the package calls: http.ParseTime, json.Unmarshal, http.NewRequestWithContext,
-- url.PathEscape, and those of the mapping.
pub record Env : Type 0 where
  pub until : Text → Option ℤ
  pub unmarshal_mods : Text → Decoded ModsResponse
  pub unmarshal_mod : Text → Decoded ModResponse
  pub resolve : Text → Result Url
  pub path_escape : Text → Text
  pub readers : Readers

-- 16 << 20
abbrev pub max_reply_bytes : ℕ
max_reply_bytes = 16_777_216

abbrev pub catalog_cache_ttl : ℕ
catalog_cache_ttl = 600_000_000_000

abbrev pub details_cache_ttl : ℕ
details_cache_ttl = 1_800_000_000_000

-- strings.TrimRight(s, "/")
skip_slashes : Text → Text
skip_slashes [] = []
skip_slashes (c ∷ s) = let rest = skip_slashes s in if c == b'/' then rest else c ∷ s

trim_right_slashes : Text → Text
unfolding skip_slashes
trim_right_slashes s = reverse (skip_slashes (reverse s))

-- NewClientWithURL and NewClient.
unfoldable pub new_client_with_url : Text → Client
unfolding trim_right_slashes
new_client_with_url base_url = record {
  base_url = trim_right_slashes base_url;
  retry = default_retry_policy;
  catalog = [];
  catalog_at = 0;
  catalog_by_gv = [];
  details = [];
}

unfoldable pub new_client : Client
unfolding new_client_with_url
new_client = new_client_with_url (text "https://mods.vintagestory.at/api")

unfoldable pub set_retry_policy : Client → RetryPolicy → Client
set_retry_policy c p = record c { retry = p }

-- What Go returns for a list: the value and the error, which may both be there.
abbrev pub Reply : Type 0
Reply = List Mod × Error

abbrev pub is_none_kept : List Mod → Bool
is_none_kept [] = true
is_none_kept (m ∷ ms) = false

-- fmt.Errorf("%w: %w", ErrStale, err)
abbrev pub stale_error : Error → Error
stale_error e = joined (sentinel Sentinel.moddb_stale) (text ": ") e

-- The select of list, listForGameVersion and Get between the flight and the context.
interrupted : Option Error → Reply → Reply
interrupted none r = r
interrupted (some e) r = ([], e)

-- The reply of a flight that failed, given the stale copy.
unfoldable pub fall_back : List Mod → Error → Reply
fall_back stale e = if not (is_none_kept stale) then (stale, stale_error e) else ([], e)

module _ (env : Env) where
  with_legacy_error {ℓ} : {A : Type ℓ} → Option (Result A) → Option (Result A)
  unfolding legacy
  with_legacy_error none = none
  with_legacy_error (some (err e)) = some (err (legacy e))
  with_legacy_error (some (ok a)) = some (ok a)

  abbrev pub request_to : Url → Request
  request_to u = record { method = get; url = some u; has_body = false }

  -- func getJSON; `none` is the panic of Do.
  unfoldable pub get_json {ℓ} :
      {A : Type ℓ}
      → (Text → Decoded A)
      → RetryPolicy
      → Text
      → Text
      → (ℕ → Round)
      → Option (Result A)
  unfolding with_legacy_error
  get_json unmarshal retry op endpoint rounds = elim (env.resolve endpoint) [
    | err e ↦ some (err (package_error op endpoint Kind.validation Sentinel.moddb_unavailable e))
    | ok u ↦
        with_legacy_error
          (fetch_json env.until unmarshal retry op (request_to u) max_reply_bytes rounds)
  ]

  mods_reply : Text → Text → Option (Result ModsResponse) → Option (Result (List Mod))
  unfolding api_status_error legacy mods_of
  mods_reply op endpoint none = none
  mods_reply op endpoint (some (err e)) = some (err e)
  mods_reply op endpoint (some (ok r)) =
      if not (eq_text r.status_code (text "200"))
      then some (err (legacy (api_status_error op endpoint r.status_code)))
      else some (ok (mods_of env.readers r.mods))

  -- func fetchMods
  unfoldable pub fetch_mods : Client → Text → Text → (ℕ → Round) → Option (Result (List Mod))
  unfolding get_json mods_reply
  fetch_mods c op endpoint rounds =
      mods_reply op endpoint (get_json env.unmarshal_mods c.retry op endpoint rounds)

  -- fetchCatalog, and the rest of the flight of list; `later` is the clock when it ends.
  catalog_flight : Client → (later : ℕ) → Option (Result (List Mod)) → Option (Client × Reply)
  unfolding fall_back
  catalog_flight c later none = none
  catalog_flight c later (some (err e)) = some (c, fall_back c.catalog e)
  catalog_flight c later (some (ok items)) =
      some (record c { catalog = items; catalog_at = later }, (items, nil))

  after_flight : Option Error → Option (Client × Reply) → Option (Client × Reply)
  unfolding interrupted
  after_flight interrupt none = none
  after_flight interrupt (some (c, r)) = some (c, interrupted interrupt r)

  abbrev pub is_fresh : Client → ℕ → Bool
  is_fresh c now = not (is_none_kept c.catalog) && ltb now (c.catalog_at + catalog_cache_ttl)

  abbrev pub list_operation : Text
  list_operation = text "moddb: list catalog"

  -- func list; List returns a copy of its result.
  unfoldable pub list :
      Client → (now later : ℕ) → Option Error → (ℕ → Round) → Option (Client × Reply)
  unfolding fetch_mods catalog_flight after_flight
  list c now later interrupt rounds =
      if is_fresh c now
      then some (c, (c.catalog, nil))
      else after_flight interrupt
          (catalog_flight c later (fetch_mods c list_operation (c.base_url ++ text "/mods") rounds))

  -- The same for one query of the game version.
  gv_flight :
      Client → Text → List Mod → (later : ℕ) → Option (Result (List Mod)) → Option (Client × Reply)
  unfolding fall_back
  gv_flight c param stale later none = none
  gv_flight c param stale later (some (err e)) = some (c, fall_back stale e)
  gv_flight c param stale later (some (ok items)) = some (
    record c { catalog_by_gv = (param, record { items = items; at = later }) ∷ c.catalog_by_gv },
    (items, nil),
  )

  fetch_for_gv :
      Client → Text → List Mod → (later : ℕ) → Option Error → (ℕ → Round) → Option (Client × Reply)
  unfolding fetch_mods gv_flight after_flight
  fetch_for_gv c param stale later interrupt rounds = after_flight interrupt (
      gv_flight c param stale later (
        fetch_mods c (text "moddb: list catalog (" ++ param ++ text ")")
          (c.base_url ++ text "/mods?" ++ param) rounds))

  from_gv_entry :
      Client
      → Text
      → (now later : ℕ) → Option Error
      → (ℕ → Round)
      → Option CachedCatalog
      → Option (Client × Reply)
  unfolding fetch_for_gv
  from_gv_entry c param now later interrupt rounds none =
      fetch_for_gv c param [] later interrupt rounds
  from_gv_entry c param now later interrupt rounds (some entry) =
      if ltb now (entry.at + catalog_cache_ttl)
      then some (c, (entry.items, nil))
      else fetch_for_gv c param entry.items later interrupt rounds

  -- func listForGameVersion
  unfoldable pub list_for_game_version :
      Client → Text → (now later : ℕ) → Option Error → (ℕ → Round) → Option (Client × Reply)
  unfolding from_gv_entry
  list_for_game_version c param now later interrupt rounds =
      from_gv_entry c param now later interrupt rounds (find param c.catalog_by_gv)
