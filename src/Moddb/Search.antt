-- ===== src/Moddb/Search.antt =====
-- moddb/client.go: what Search does with the catalog: filters, sorting and paging.
pub mod Filter
pub mod Paging
use vintagestory_go.Base.{
  ℕ, zero, suc, ◌+◌, ◌-◌, ◌*◌, ◌/◌, ltb, leb, Bool, true, false, not, ◌&&◌, ◌||◌, Option, none,
  some, List, [], ◌∷◌, map, keep, all, member, length, take, drop, Text, text, is_empty, eq_text,
  if◌then◌else◌,
}
use vintagestory_go.Base.Int.{ℤ, pos, negsuc, ltb_ℤ, wrap64}
use vintagestory_go.Base.Strings.{trim_space, to_lower, contains, join, lt_text}
use vintagestory_go.Base.Sort.{sort_stable}
use vintagestory_go.Moddb.Types.{Side, client, server, both, unknown, Mod, SearchOptions}

unfoldable pub matches_text : Mod → Text → Bool
matches_text m q =
    contains
      (to_lower (
        join (m.id ∷ m.slug ∷ m.name ∷ m.author_name ∷ m.summary ∷ join m.tags (text " ") ∷ [])
          (text " ")))
      q

unfoldable pub contains_all_fold : List Text → List Text → Bool
contains_all_fold v r = all (λ x. member (to_lower x) (map to_lower v)) r

abbrev pub eq_side : Side → Side → Bool
eq_side client client = true
eq_side server server = true
eq_side both both = true
eq_side unknown unknown = true
eq_side _ _ = false

-- q.Side != "" && q.Side != SideUnknown && m.Side != q.Side
wrong_side : Option Side → Side → Bool
wrong_side none s = false
wrong_side (some side) s = not (eq_side side unknown) && not (eq_side s side)

-- q.UpdatedAfter != nil && (m.UpdatedAt == nil || m.UpdatedAt.Before(*q.UpdatedAfter))
too_old : Option ℤ → Option ℤ → Bool
too_old none u = false
too_old (some after) none = true
too_old (some after) (some u) = ltb_ℤ u after

abbrev pub is_no_tag : List Text → Bool
is_no_tag [] = true
is_no_tag (t ∷ ts) = false

-- An item that no `continue` of the loop skips.
unfoldable pub passes : SearchOptions → Text → Mod → Bool
unfolding wrong_side too_old
passes q query m =
    if not (is_empty query) && not (matches_text m query)
    then false
    else if wrong_side q.side m.side
    then false
    else if too_old q.updated_after m.updated_at
    then false
    else not (not (is_no_tag q.tags) && not (contains_all_fold m.tags q.tags))

unfoldable pub date_after : Option ℤ → Option ℤ → Bool
date_after none b = false
date_after (some a) none = true
date_after (some a) (some b) = ltb_ℤ b a

-- The `less` of sortMods.
unfoldable pub comes_first : Text → Bool → Mod → Mod → Bool
comes_first by query a b =
    if eq_text by (text "downloads")
    then ltb_ℤ b.downloads a.downloads
    else if eq_text by (text "name_asc")
    then lt_text (to_lower a.name) (to_lower b.name)
    else if eq_text by (text "name_desc")
    then lt_text (to_lower b.name) (to_lower a.name)
    else if eq_text by (text "newest") || eq_text by (text "updated")
    then date_after a.updated_at b.updated_at
    else not query && date_after a.updated_at b.updated_at

abbrev pub query_of : SearchOptions → Text
query_of q = to_lower (trim_space q.text)

-- The filtered and sorted items.
unfoldable pub found : SearchOptions → List Mod → List Mod
found q items =
    sort_stable (comes_first q.sort (not (is_empty (query_of q))))
      (keep (passes q (query_of q)) items)

-- if page < 1 { page = 1 }
unfoldable pub page_of : ℤ → ℕ
page_of (pos zero) = 1
page_of (pos (suc n)) = suc n
page_of (negsuc n) = 1

-- if size < 1 || size > 60 { size = 24 }
unfoldable pub size_of : ℤ → ℕ
size_of (negsuc n) = 24
size_of (pos n) = if leb 1 n && leb n 60 then n else 24

-- A page, with the numbers of the result.
pub record Page : Type 0 where
  pub items : List Mod
  pub page : ℕ
  pub page_size : ℕ
  pub total_items : ℕ
  pub total_pages : ℕ
  pub has_next : Bool

-- filtered[start:end], for a start that is not negative.
slice : List Mod → (page size start : ℕ) → Page
slice xs page size start =
    let total = length xs in
    let from = if ltb total start then total else start in
    let end = if ltb total (from + size) then total else from + size in
    record {
      items = take (end - from) (drop from xs);
      page = page;
      page_size = size;
      total_items = total;
      total_pages = (total + size - 1) / size;
      has_next = ltb end total;
    }

-- start := (page - 1) * size in an int64; a slice from a negative index panics.
slice_from : List Mod → (page size : ℕ) → ℤ → Option Page
unfolding slice
slice_from xs page size (negsuc n) = none
slice_from xs page size (pos start) = some (slice xs page size start)

unfoldable pub page_from : List Mod → ℤ → ℤ → Option Page
unfolding slice_from page_of size_of
page_from xs raw_page raw_size =
    let page = page_of raw_page in
    let size = size_of raw_size in slice_from xs page size (wrap64 ((page - 1) * size))

-- The part of Search between the catalog and the enrichment.
unfoldable pub search_page : SearchOptions → List Mod → Option Page
unfolding found page_from
search_page q items = page_from (found q items) q.page q.page_size
