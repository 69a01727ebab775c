-- ===== src/Moddb/Answer/Laws.antt =====
-- moddb/client.go Search: what a result is.
use vintagestory_go.Base.{
  ℕ, suc, ◌≡◌, ◌⊎◌, inl, inr, refl, ap, true, false, Option, none, some, List, [], ◌∷◌, map, length,
  Text, Bool-cases, Option-cases, arith,
}
use vintagestory_go.Vshttp.Errors.{Error, nil, is, is_nil, Sentinel}
use vintagestory_go.Vshttp.Json.{Result, ok, err}
use vintagestory_go.Moddb.Types.{Mod, ModDetails, SearchOptions, SearchResult}
use vintagestory_go.Moddb.Search.{Page, search_page}
use vintagestory_go.Moddb.Client.{Client, Env, Reply, is_none_kept}
use vintagestory_go.Moddb.Client.Details.{get_mod}
use vintagestory_go.Moddb.Answer.{
  Visit, Lookups, join_lookup, join_visit, finish_page, param_of, result_of, warn, enrich_from,
  enrich_page, deliver, searched, catalog_for, search,
}

abbrev pub ids : List Mod → List Text
ids ms = map (λ m. m.id) ms

-- The items of a page after the lookups: the same mods, or none if the context ended.
abbrev IsEnriched : Error → List Mod → List Mod → Type 0
IsEnriched ctx_err items out = (ids out ≡ ids items) ⊎ ((out ≡ []) × (is_nil ctx_err ≡ false))

module _ (env : Env) (visits : ℕ → Visit) where
  join_visit-ids :
      (m : Mod) (ms : List Mod) (r : Result ModDetails) (o : Option (Client × Lookups))
      (c' : Client) (l : Lookups)
      → ((c' : Client) (l : Lookups) → o ≡ some (c', l) → ids l.out ≡ ids ms)
      → join_visit m r o ≡ some (c', l)
      → ids l.out ≡ m.id ∷ ids ms
  unfolding join_visit join_lookup
  join_visit-ids m ms r none c' l h e = cc
  join_visit-ids m ms (err x) (some (c0, l0)) c' l h e =
      let same : join_lookup m (err x) l0 ≡ l = ground (arith, e) in
      rw (← same) (ap (◌∷◌ m.id) (h c0 l0 refl))
  join_visit-ids m ms (ok d) (some (c0, l0)) c' l h e =
      let same : join_lookup m (ok d) l0 ≡ l = ground (arith, e) in
      rw (← same) (ap (◌∷◌ m.id) (h c0 l0 refl))

  enrich_from-ids :
      (i : ℕ) (c : Client) (ms : List Mod) (c' : Client) (l : Lookups)
      → enrich_from env visits i c ms ≡ some (c', l)
      → ids l.out ≡ ids ms
  unfolding enrich_from
  enrich_from-ids i c [] c' l h =
      let same : record { out = []; failures = 0; first_err = nil } ≡ l = ground (arith, h) in
      rw (← same) refl
  enrich_from-ids i c (m ∷ ms) c' l h =
      go (get_mod env c m.id (visits i).now (visits i).later (visits i).interrupt (visits i).rounds)
        refl (λ c1 c2 l2 k. enrich_from-ids (suc i) c1 ms c2 l2 k)
    where
      go :
          (o : Option (Client × Result ModDetails))
          → get_mod env c m.id
              (visits i).now
              (visits i).later
              (visits i).interrupt
              (visits i).rounds
            ≡ o
          → ((c1 c2 : Client) (l2 : Lookups)
              → enrich_from env visits (suc i) c1 ms ≡ some (c2, l2)
              → ids l2.out ≡ ids ms)
          → ids l.out ≡ m.id ∷ ids ms
      go none e rest = absurd (ground (arith, rw (enrich_from, e) at h))
      go (some (c1, r)) e rest =
          join_visit-ids m ms r (enrich_from env visits (suc i) c1 ms) c' l (rest c1)
            (rw (enrich_from, e) at h)

  finish_page-IsEnriched :
      (ctx_err : Error) (items : List Mod) (o : Option (Client × Lookups)) (c' : Client)
      (out : List Mod) (e : Error)
      → ((c' : Client) (l : Lookups) → o ≡ some (c', l) → ids l.out ≡ ids items)
      → finish_page ctx_err (length items) o ≡ some (c', (out, e))
      → IsEnriched ctx_err items out
  unfolding finish_page
  finish_page-IsEnriched ctx_err items none c' out e h k = cc
  finish_page-IsEnriched ctx_err items (some (c, l)) c' out e h k =
      elim (Bool-cases (is_nil ctx_err)) [
        | inl n ↦ let same : l.out ≡ out = ground (arith, k, n) in inl (rw (← same) (h c l refl))
        | inr n ↦ inr (ground (arith, k, n), n)
      ]

  enrich_page-IsEnriched :
      (ctx_err : Error) (c : Client) (items : List Mod) (c' : Client) (out : List Mod) (e : Error)
      → enrich_page env visits ctx_err c items ≡ some (c', (out, e))
      → IsEnriched ctx_err items out
  unfolding enrich_page
  enrich_page-IsEnriched ctx_err c items c' out e h = elim (Bool-cases (is_none_kept items)) [
    | inl n ↦ inl (ap ids (ground (arith, h, n)))
    | inr n ↦
        finish_page-IsEnriched ctx_err items (enrich_from env visits 0 c items) c' out e
          (λ c2 l2 k. enrich_from-ids 0 c items c2 l2 k) (ground (arith, h, n))
  ]

  -- What a result rests on.
  pub record IsAnswer (c : Client) (q : SearchOptions) (first : Visit) (ctx_err : Error)
      (r : SearchResult) : Type 0 where
    pub after : Client
    pub items : List Mod
    pub error : Error
    pub looked : catalog_for env visits c (param_of q) first ≡ some (after, (items, error))
    pub usable : (is_nil error ≡ true) ⊎ (is error Sentinel.moddb_stale ≡ true)
    pub page : Page
    pub paged : search_page q items ≡ some page
    pub numbers :
        (r.page ≡ page.page)
        × (r.page_size ≡ page.page_size)
        × (r.total_items ≡ page.total_items)
        × (r.total_pages ≡ page.total_pages)
        × (r.has_next ≡ page.has_next)
    pub same_mods : (ids r.items ≡ ids page.items) ⊎ ((r.items ≡ []) × (is_nil ctx_err ≡ false))
    pub warned : (is_nil error ≡ true) ⊎ (r.warning ≡ error)

  record IsResult (ctx_err error : Error) (page : Page) (r : SearchResult) : Type 0 where
    pub numbers :
        (r.page ≡ page.page)
        × (r.page_size ≡ page.page_size)
        × (r.total_items ≡ page.total_items)
        × (r.total_pages ≡ page.total_pages)
        × (r.has_next ≡ page.has_next)
    pub same_mods : IsEnriched ctx_err page.items r.items
    pub warned : (is_nil error ≡ true) ⊎ (r.warning ≡ error)

  warn-IsResult :
      (ctx_err error : Error) (page : Page) (o : Option (Client × Reply)) (c' : Client)
      (r : SearchResult)
      → ((c' : Client) (out : List Mod) (e : Error)
          → o ≡ some (c', (out, e))
          → IsEnriched ctx_err page.items out)
      → warn page error o ≡ some (c', ok r)
      → IsResult ctx_err error page r
  unfolding warn result_of
  warn-IsResult ctx_err error page none c' r h k = cc
  warn-IsResult ctx_err error page (some (c, (out, e))) c' r h k = record {
    numbers = ground (arith, k);
    same_mods = (let same : out ≡ r.items = ground (arith, k) in rw (← same) (h c out e refl));
    warned = ground (arith, k);
  }

  deliver-IsResult :
      (ctx_err : Error) (param : Option Text) (c : Client) (error : Error) (page : Page)
      (c' : Client) (r : SearchResult)
      → deliver env visits ctx_err param c error (some page) ≡ some (c', ok r)
      → IsResult ctx_err error page r
  unfolding deliver result_of
  deliver-IsResult ctx_err none c error page c' r h = record {
    numbers = ground (arith, h);
    same_mods = inl (ap ids (ground (arith, h)));
    warned = inr (ground (arith, h));
  }
  deliver-IsResult ctx_err (some param) c error page c' r h =
      warn-IsResult ctx_err error page (enrich_page env visits ctx_err c page.items) c' r
        (λ c2 out e k. enrich_page-IsEnriched ctx_err c page.items c2 out e k) h

  -- A result of Search shows a page of the catalog that it looked at, with the numbers of that page and
  -- with a warning if the catalog was stale; the lookups change no mod's identity, but the items are
  -- missing if the context ended during the lookups.
  pub search-IsAnswer :
      (c : Client) (q : SearchOptions) (first : Visit) (ctx_err : Error) (c' : Client)
      (r : SearchResult)
      → search env visits c q first ctx_err ≡ some (c', ok r)
      → IsAnswer c q first ctx_err r
  unfolding search searched
  search-IsAnswer c q first ctx_err c' r h = go (catalog_for env visits c (param_of q) first) refl
    where
      go :
          (o : Option (Client × Reply))
          → catalog_for env visits c (param_of q) first ≡ o
          → IsAnswer c q first ctx_err r
      go none e = absurd (ground (arith, rw (search, e, searched) at h))
      go (some (after, (items, error))) e =
          let h' = rw (search, e, searched) at h in
          let fine : (is_nil error ≡ true) ⊎ (is error Sentinel.moddb_stale ≡ true) =
            ground (arith, h') in
          let reached : deliver env visits ctx_err (param_of q) after error (search_page q items)
              ≡ some (c', ok r) =
            ground (arith, h', fine) in
          elim (Option-cases (search_page q items)) [
            | inl n ↦ absurd (ground (arith, rw n at reached))
            | inr (page, k) ↦
                let res =
                  deliver-IsResult ctx_err (param_of q) after error page c' r (rw k at reached) in
                record {
                  after = after;
                  items = items;
                  error = error;
                  looked = e;
                  usable = fine;
                  page = page;
                  paged = k;
                  numbers = res.numbers;
                  same_mods = res.same_mods;
                  warned = res.warned;
                }
          ]
