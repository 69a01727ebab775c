-- ===== src/Moddb/Tests/Searches.antt =====
-- Runs of package moddb: searches, their pages and tags.
use mathlib.Core.List.{List, Perm}
use mathlib.Core.List.Perm
use vintagestory_go.Base.{
  inl, sym, subst, not, is_empty, ◌≡◌, ◌↔◌, refl, true, false, none, some, [], ◌∷◌, In, length,
  text, arith,
}
use vintagestory_go.Base.Int.{pos}
use vintagestory_go.Base.Sort.{IsOrdered}
use vintagestory_go.Vshttp.Errors.{nil}
use vintagestory_go.Vshttp.Json.{ok}
use vintagestory_go.Moddb.Types.{Tag, Side, Mod, SearchOptions, SearchResult}
use vintagestory_go.Moddb.Mapping.{mod_of}
use vintagestory_go.Moddb.Search.{query_of, Page, comes_first, found, page_of, size_of, search_page}
use vintagestory_go.Moddb.Search.Paging.{
  pages, page_count, IsPage, pages-page_count, search_page-IsPage,
}
use vintagestory_go.Moddb.Search.Filter.{IsMatch, found-IsSelection}
use vintagestory_go.Moddb.Tags.{count_name, count_mods, tags_of}
use vintagestory_go.Moddb.Tags.Order.{tags_of_unique}
use vintagestory_go.Moddb.Tags.Count.{IsAscending, total, uses_in, tags_of-IsAscending}
use vintagestory_go.Moddb.Client.{Client}
use vintagestory_go.Moddb.Answer.{catalog_for, param_of, Visit, search}
use vintagestory_go.Moddb.Answer.Overflow.{search_overflow}
use vintagestory_go.Moddb.Answer.Laws.{IsAnswer, search-IsAnswer}
use vintagestory_go.Moddb.Tests.{
  mapping, calling, summary, readers, env, answers, empty, mods, carts,
}

abbrev options : SearchOptions
options = record {
  text = text " ANN ";
  game_version = text "";
  sort = text "name_asc";
  side = some Side.both;
  updated_after = none;
  tags = text "LIBRARY" ∷ [];
  page = pos 2;
  page_size = pos 1;
}

two_found : length (found options mods) ≡ 2
unfolding mapping
two_found = refl

pages-page_count_example : pages options mods (page_count options mods) ≡ found options mods
unfolding mapping
pages-page_count_example = pages-page_count options mods (omega arith)

found-IsSelection_example :
    ((m : Mod) → In m (found options mods) ↔ (In m mods × IsMatch options m))
    × IsOrdered (comes_first options.sort (not (is_empty (query_of options)))) (found options mods)
found-IsSelection_example = found-IsSelection options mods

abbrev second : Page
second = record {
  items = carts ∷ [];
  page = 2;
  page_size = 1;
  total_items = 2;
  total_pages = 2;
  has_next = false;
}

second_page : search_page options mods ≡ some second
unfolding mapping mod_of
second_page = refl

search_page-IsPage_example : IsPage options mods second
unfolding page_of size_of
search_page-IsPage_example = search_page-IsPage options mods 1 second refl (omega arith) second_page

-- A page number whose first index leaves the int64 range.
abbrev far : SearchOptions
far = record options { page = pos 576_460_752_303_423_489; page_size = pos 24 }

tags_of-IsAscending_example :
    IsAscending (tags_of mods)
    × (total (text "library") (tags_of mods) ≡ uses_in (text "library") mods)
tags_of-IsAscending_example = tags_of-IsAscending mods (text "library")

-- The tags of the catalog, in the order of the map and in the one of a walk.
abbrev craft : Tag
craft = record { name = text "Craft"; count = 1 }

abbrev library : Tag
library = record { name = text "Library"; count = 3 }

counted : count_mods mods [] ≡ craft ∷ library ∷ []
unfolding mapping count_mods mod_of count_name
counted = refl

tags_of_unique_example : craft ∷ library ∷ [] ≡ tags_of mods
unfolding mapping
tags_of_unique_example =
    tags_of_unique mods (library ∷ craft ∷ []) (craft ∷ library ∷ [])
      (subst (λ (l : List Tag). Perm l (library ∷ craft ∷ [])) (sym counted)
        (Perm.swap library craft []))
      (Perm.swap craft library []) ((refl, tt), (tt, tt))

abbrev visit : Visit
visit = record { now = 0; later = 10; interrupt = none; rounds = answers }

far_catalog :
    catalog_for env (λ i. visit) empty (param_of far) visit
    ≡ some (record empty { catalog = mods; catalog_at = 10 }, (mods, nil))
unfolding calling
far_catalog = refl

search_overflow_example : search env (λ i. visit) empty far visit nil ≡ none
unfolding page_of size_of
search_overflow_example =
    search_overflow env (λ i. visit) empty far visit nil
      (record empty { catalog = mods; catalog_at = 10 }) mods nil far_catalog (inl refl)
      (omega arith)

abbrev for_version : SearchOptions
for_version = record options { game_version = text "1.20.x"; page = pos 1 }

abbrev ants : Mod
ants = mod_of readers (summary (pos 9) (text "Ants") (text "mod") (text "library"))

abbrev answer : SearchResult
answer = record {
  items =
      record ants {
        game_versions = text "1.19.8" ∷ text "1.20.7" ∷ [];
        latest_version = text "2.0.0-rc.1";
      }
      ∷ [];
  page = 1;
  page_size = 1;
  total_items = 2;
  total_pages = 2;
  has_next = true;
  warning = nil;
}

searched_run :
    (c : Client) × (search env (λ i. visit) empty for_version visit nil ≡ some (c, ok answer))
unfolding calling mod_of
searched_run = (_, refl)

search-IsAnswer_example : IsAnswer env (λ i. visit) empty for_version visit nil answer
search-IsAnswer_example =
    search-IsAnswer env (λ i. visit) empty for_version visit nil searched_run.0 answer
      searched_run.1
