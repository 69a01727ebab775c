-- ===== src/Moddb/Answer.antt =====
-- moddb/client.go: Search as a whole, with enrichPage. The eight workers of enrichPage are taken in
-- the order of the items: a `Visit` for each item is what its lookup meets.
pub mod Laws
pub mod Overflow
pub mod Arrivals
use vintagestory_go.Base.{
  ℕ, suc, ◌+◌, not, ◌&&◌, Option, none, some, List, [], ◌∷◌, ◌++◌, length, Text, text, is_empty,
  if◌then◌else◌,
}
use vintagestory_go.Base.Strings.{itoa}
use vintagestory_go.Vshttp.Errors.{Error, nil, wrapped, is, is_nil, Sentinel}
use vintagestory_go.Vshttp.Do.{Round}
use vintagestory_go.Vshttp.Json.{Result, ok, err}
use vintagestory_go.Moddb.Types.{Mod, ModDetails, SearchOptions, SearchResult}
use vintagestory_go.Moddb.GameVersion.{game_version_param}
use vintagestory_go.Moddb.Search.{Page, search_page}
use vintagestory_go.Moddb.Client.{Client, Env, Reply, is_none_kept, list, list_for_game_version}
use vintagestory_go.Moddb.Client.Details.{get_mod}

pub record Visit : Type 0 where
  pub now : ℕ
  pub later : ℕ
  pub interrupt : Option Error
  pub rounds : ℕ → Round

-- The items so far, the number of failures and the first error.
pub record Lookups : Type 0 where
  pub out : List Mod
  pub failures : ℕ
  pub first_err : Error

-- out[x.i], for a lookup that succeeded
abbrev with_details : Mod → ModDetails → Mod
with_details m d = record m {
  game_versions = d.base.game_versions;
  latest_version = d.base.latest_version;
}

join_lookup : Mod → Result ModDetails → Lookups → Lookups
join_lookup m (err e) l = record {
  out = m ∷ l.out;
  failures = suc l.failures;
  first_err = if is_nil e then l.first_err else e;
}
join_lookup m (ok d) l = record l { out = with_details m d ∷ l.out }

join_visit : Mod → Result ModDetails → Option (Client × Lookups) → Option (Client × Lookups)
unfolding join_lookup
join_visit m r none = none
join_visit m r (some (c, l)) = some (c, join_lookup m r l)

enrichment_error : ℕ → ℕ → Error → Error
enrichment_error failures total e =
    wrapped
      (text "moddb: game version enrichment: "
        ++ itoa failures
        ++ text " of "
        ++ itoa total
        ++ text " lookups failed, first failure: ")
      e

finish_page : Error → ℕ → Option (Client × Lookups) → Option (Client × Reply)
unfolding enrichment_error
finish_page ctx_err total none = none
finish_page ctx_err total (some (c, l)) =
    if not (is_nil ctx_err)
    then some (c, ([], ctx_err))
    else if not (is_nil l.first_err)
    then some (c, (l.out, enrichment_error l.failures total l.first_err))
    else some (c, (l.out, nil))

-- The query parameter of a game version; QueryEscape leaves the characters of such a value alone.
parameter : Option (Text × Text) → Option Text
parameter none = none
parameter (some (name, value)) = some (name ++ text "=" ++ value)

unfoldable pub param_of : SearchOptions → Option Text
unfolding parameter game_version_param
param_of q = if is_empty q.game_version then none else parameter (game_version_param q.game_version)

result_of : Page → List Mod → Error → SearchResult
result_of p items warning = record {
  items = items;
  page = p.page;
  page_size = p.page_size;
  total_items = p.total_items;
  total_pages = p.total_pages;
  has_next = p.has_next;
  warning = warning;
}

warn : Page → Error → Option (Client × Reply) → Option (Client × Result SearchResult)
unfolding result_of
warn p warning none = none
warn p warning (some (c, (items, e))) =
    if not (is_nil e) && is e Sentinel.canceled
    then some (c, err e)
    else if not (is_nil e) && is_nil warning
    then some (c, ok (result_of p items e))
    else some (c, ok (result_of p items warning))

module _ (env : Env) (visits : ℕ → Visit) where
  unfoldable pub enrich_from : ℕ → Client → List Mod → Option (Client × Lookups)
  unfolding join_visit
  enrich_from i c [] = some (c, record { out = []; failures = 0; first_err = nil })
  enrich_from i c (m ∷ ms) =
      elim (get_mod env c m.id (visits i).now (visits i).later (visits i).interrupt
        (visits i).rounds) [
          | none ↦ none
          | some (c', r) ↦ join_visit m r (enrich_from (suc i) c' ms)
        ]

  -- func enrichPage; `ctx_err` is ctx.Err() at its end.
  unfoldable pub enrich_page : Error → Client → List Mod → Option (Client × Reply)
  unfolding enrich_from finish_page
  enrich_page ctx_err c items =
      if is_none_kept items
      then some (c, (items, nil))
      else finish_page ctx_err (length items) (enrich_from 0 c items)

  -- Search from its page on.
  deliver :
      Error → Option Text → Client → Error → Option Page → Option (Client × Result SearchResult)
  unfolding warn enrich_page result_of
  deliver ctx_err param c warning none = none
  deliver ctx_err none c warning (some p) = some (c, ok (result_of p p.items warning))
  deliver ctx_err (some param) c warning (some p) = warn p warning (enrich_page ctx_err c p.items)

  searched :
      SearchOptions
      → Error
      → Option Text
      → Option (Client × Reply)
      → Option (Client × Result SearchResult)
  unfolding deliver
  searched q ctx_err param none = none
  searched q ctx_err param (some (c, (items, e))) =
      if not (is_nil e) && not (is e Sentinel.moddb_stale)
      then some (c, err e)
      else deliver ctx_err param c e (search_page q items)

  -- The catalog that Search looks at, met by `first`.
  unfoldable pub catalog_for : Client → Option Text → Visit → Option (Client × Reply)
  catalog_for c none v = list env c v.now v.later v.interrupt v.rounds
  catalog_for c (some param) v =
      list_for_game_version env c param v.now v.later v.interrupt v.rounds

  -- func Search
  unfoldable pub search :
      Client → SearchOptions → (first : Visit) → Error → Option (Client × Result SearchResult)
  unfolding searched catalog_for param_of
  search c q first ctx_err = searched q ctx_err (param_of q) (catalog_for c (param_of q) first)
