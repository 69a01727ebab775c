-- ===== src/Moddb/Client/Details.antt =====
-- moddb/client.go: Get and fetchDetails over the cache of details.
pub mod Aliases
use vintagestory_go.Base.{
  ℕ, ◌+◌, ltb, not, ◌||◌, Option, none, some, ◌∷◌, ◌++◌, Text, text, is_empty, eq_text,
  if◌then◌else◌,
}
use vintagestory_go.Base.Strings.{trim_space}
use vintagestory_go.Vshttp.Errors.{Kind, Sentinel, Error, sentinel}
use vintagestory_go.Vshttp.Do.{Round}
use vintagestory_go.Vshttp.Json.{Result, ok, err}
use vintagestory_go.Moddb.Types.{ModDetails, ModResponse}
use vintagestory_go.Moddb.Errors.{package_error, status_cause}
use vintagestory_go.Moddb.Mapping.{is_zero, map_details}
use vintagestory_go.Moddb.Client.{Client, CachedDetails, Env, find, details_cache_ttl, get_json}

module _ (env : Env) where
  details_operation : Text
  details_operation = text "moddb: get mod details"

  details_of : Text → ModResponse → Result ModDetails
  unfolding map_details details_operation
  details_of endpoint r =
      if not (eq_text r.status_code (text "200")) || is_zero r.mod_detail.mod_id
      then err (
          package_error details_operation endpoint Kind.not_found Sentinel.moddb_not_found
            (status_cause r.status_code))
      else ok (map_details env.readers r.mod_detail)

  -- c.details[id], c.details[d.ID] and, if there is one, c.details[d.Slug]
  unfoldable pub keep_details : Client → Text → ModDetails → ℕ → Client
  keep_details c id d later =
      let x : CachedDetails = record { value = d; fetched_at = later } in
      let both = (d.base.id, x) ∷ (id, x) ∷ c.details in
      record c { details = if not (is_empty d.base.slug) then (d.base.slug, x) ∷ both else both }

  details_flight :
      Client
      → Text
      → Text
      → (later : ℕ) → Option (Result ModResponse)
      → Option (Client × Result ModDetails)
  unfolding details_of keep_details
  details_flight c id endpoint later none = none
  details_flight c id endpoint later (some (err e)) = some (c, err e)
  details_flight c id endpoint later (some (ok r)) = elim (details_of endpoint r) [
    | err e ↦ some (c, err e)
    | ok d ↦ some (keep_details c id d later, ok d)
  ]

  -- func fetchDetails
  unfoldable pub fetch_details :
      Client → Text → (later : ℕ) → (ℕ → Round) → Option (Client × Result ModDetails)
  unfolding get_json details_flight details_operation
  fetch_details c id later rounds =
      let endpoint = c.base_url ++ text "/mod/" ++ env.path_escape id in
      details_flight c id endpoint later
        (get_json env env.unmarshal_mod c.retry details_operation endpoint rounds)

  details_interrupted :
      Option Error → Option (Client × Result ModDetails) → Option (Client × Result ModDetails)
  details_interrupted interrupt none = none
  details_interrupted none r = r
  details_interrupted (some e) (some (c, r)) = some (c, err e)

  from_entry :
      Client
      → Text
      → (now later : ℕ) → Option Error
      → (ℕ → Round)
      → Option CachedDetails
      → Option (Client × Result ModDetails)
  unfolding fetch_details details_interrupted
  from_entry c id now later interrupt rounds none =
      details_interrupted interrupt (fetch_details c id later rounds)
  from_entry c id now later interrupt rounds (some x) =
      if ltb now (x.fetched_at + details_cache_ttl)
      then some (c, ok x.value)
      else details_interrupted interrupt (fetch_details c id later rounds)

  -- func Get
  unfoldable pub get_mod :
      Client
      → Text
      → (now later : ℕ) → Option Error
      → (ℕ → Round)
      → Option (Client × Result ModDetails)
  unfolding from_entry
  get_mod c raw now later interrupt rounds =
      let id = trim_space raw in
      if is_empty id
      then some (c, err (sentinel Sentinel.moddb_not_found))
      else from_entry c id now later interrupt rounds (find id c.details)
