-- ===== src/Versions/Catalog/Cache.antt =====
-- versions/versions.go List: the cache over a sequence of calls.
use vintagestory_go.Base.{
  In, ◌∷◌, ℕ, ◌+◌, ◌<◌, ◌≤◌, ◌≡◌, ◌⊎◌, inl, inr, refl, true, false, Option, none, some, List, [],
  Text, Bool-cases, arith,
}
use vintagestory_go.Vshttp.Errors.{Error}
use vintagestory_go.Vshttp.Retry.{RetryPolicy}
use vintagestory_go.Vshttp.Do.{Round}
use vintagestory_go.Vshttp.Json.{Result, ok, err}
use vintagestory_go.Versions.Release.{Release}
use vintagestory_go.Versions.Catalog.{
  Catalog, Env, fetch, is_fresh, is_none_kept, store, list, new_catalog_for_platform,
  set_retry_policy,
}
use vintagestory_go.Versions.Catalog.Fetch.{IsListing, chosen, fetch-IsListing}

-- The catalogs that a program can reach from the constructors, by the calls that return.
pub data History (env : Env) : Catalog → Type 0 where
  created :
      (endpoint platform architecture : Text)
      → History env (new_catalog_for_platform endpoint platform architecture)
  tuned : {c : Catalog} → History env c → (p : RetryPolicy) → History env (set_retry_policy c p)
  asked :
      {c c' : Catalog}
      → History env c
      → (now later : ℕ) (rounds : ℕ → Round) (r : Result (List Release))
      → list env c now later rounds ≡ some (c', r)
      → History env c'

module _ (env : Env) where
  -- The replies that the network gave in a history, by its calls, the last one first.
  pub sources : {c : Catalog} → History env c → List (ℕ → Round)
  sources (created endpoint platform architecture) = []
  sources (tuned h p) = sources h
  sources (asked h now later rounds r e) = rounds ∷ sources h

  -- The cache is empty or a listing of one of the replies for this target.
  abbrev IsSound : List (ℕ → Round) → Catalog → Type 0
  IsSound past c =
      (c.cached ≡ []) ⊎ ((source : ℕ → Round) × In source past × IsListing env c source c.cached)

  IsSound-cons :
      (past : List (ℕ → Round)) (c : Catalog) (rounds : ℕ → Round)
      → IsSound past c
      → IsSound (rounds ∷ past) c
  IsSound-cons past c rounds (inl e) = inl e
  IsSound-cons past c rounds (inr (source, m, k)) = inr (source, inr m, k)

  IsListing-tuned :
      (c : Catalog) (p : RetryPolicy) (rounds : ℕ → Round) (rs : List Release)
      → IsListing env c rounds rs
      → IsListing env (set_retry_policy c p) rounds rs
  unfolding set_retry_policy chosen
  IsListing-tuned c p rounds rs l = record {
    url = l.url;
    resolved = l.resolved;
    payload = l.payload;
    fetched = l.fetched;
    complete = l.complete;
    ordered = l.ordered;
    genuine = l.genuine;
  }

  IsListing-stored :
      (c : Catalog) (rs : List Release) (at : ℕ) (rounds : ℕ → Round)
      → IsListing env c rounds rs
      → IsListing env (record c { cached = rs; cached_at = at }) rounds rs
  unfolding chosen
  IsListing-stored c rs at rounds l = record {
    url = l.url;
    resolved = l.resolved;
    payload = l.payload;
    fetched = l.fetched;
    complete = l.complete;
    ordered = l.ordered;
    genuine = l.genuine;
  }

  -- The two ways in which List returns a list, and the one in which it returns an error.
  data Listed (c : Catalog) (now later : ℕ) (rounds : ℕ → Round)
      : Catalog → Result (List Release) → Type 0 where
    from_cache : is_fresh env c now ≡ true → Listed c now later rounds c (ok c.cached)
    refreshed :
        (rs : List Release)
        → fetch env c rounds ≡ some (ok rs)
        → Listed c now later rounds (record c { cached = rs; cached_at = later }) (ok rs)
    refresh_failed :
        (e : Error) → fetch env c rounds ≡ some (err e) → Listed c now later rounds c (err e)

  stored-Listed :
      (c : Catalog) (now later : ℕ) (rounds : ℕ → Round) (o : Option (Result (List Release)))
      (c' : Catalog) (r : Result (List Release))
      → fetch env c rounds ≡ o
      → store env c later o ≡ some (c', r)
      → Listed c now later rounds c' r
  unfolding store
  stored-Listed c now later rounds none c' r f h = cc
  stored-Listed c now later rounds (some (err e)) c' r f h =
      let (m, n) : (c ≡ c') × (err e ≡ r) = ground (arith, h) in rw (← m, ← n) (refresh_failed e f)
  stored-Listed c now later rounds (some (ok rs)) c' r f h =
      let (m, n) : (record c { cached = rs; cached_at = later } ≡ c') × (ok rs ≡ r) =
        ground (arith, h) in
      rw (← m, ← n) (refreshed rs f)

  list-Listed :
      (c : Catalog) (now later : ℕ) (rounds : ℕ → Round) (c' : Catalog) (r : Result (List Release))
      → list env c now later rounds ≡ some (c', r)
      → Listed c now later rounds c' r
  unfolding list
  list-Listed c now later rounds c' r h = elim (Bool-cases (is_fresh env c now)) [
    | inl e ↦
        let (m, n) : (c ≡ c') × (ok c.cached ≡ r) = ground (arith, h, e) in
        rw (← m, ← n) (from_cache e)
    | inr e ↦ stored-Listed c now later rounds (fetch env c rounds) c' r refl (ground (arith, h, e))
  ]

  Listed-IsSound :
      (past : List (ℕ → Round)) (c : Catalog) (now later : ℕ) (rounds : ℕ → Round) (c' : Catalog)
      (r : Result (List Release))
      → IsSound past c
      → Listed c now later rounds c' r
      → IsSound (rounds ∷ past) c'
  Listed-IsSound past c now later rounds c' r s (from_cache h) = IsSound-cons past c rounds s
  Listed-IsSound past c now later rounds c' r s (refreshed rs h) =
      inr (rounds, inl refl, IsListing-stored c rs later rounds (fetch-IsListing env c rounds rs h))
  Listed-IsSound past c now later rounds c' r s (refresh_failed e h) = IsSound-cons past c rounds s

  History-IsSound : (c : Catalog) → (h : History env c) → IsSound (sources h) c
  unfolding new_catalog_for_platform set_retry_policy sources
  History-IsSound c (created endpoint platform architecture) = inl refl
  History-IsSound c (tuned h p) = elim (History-IsSound _ h) [
    | inl e ↦ inl e
    | inr (source, m, l) ↦ inr (source, m, IsListing-tuned _ p source _ l)
  ]
  History-IsSound c (asked h now later rounds r e) =
      Listed-IsSound (sources h) _ now later rounds c r (History-IsSound _ h)
        (list-Listed _ now later rounds c r e)

  not_fresh : (c : Catalog) (now : ℕ) → c.cached ≡ [] → is_fresh env c now ≡ false
  not_fresh c now e = rw e refl

  -- Where the releases of a call come from: the replies of the call itself, or, within five minutes
  -- of the time of the cache, those of an earlier one.
  abbrev pub IsProvided :
      List (ℕ → Round) → Catalog → (now : ℕ) → (ℕ → Round) → List Release → Type 0
  IsProvided past c now rounds rs =
      (source : ℕ → Round) × IsListing env c source rs
      × ((source ≡ rounds) ⊎ (In source past × (now < c.cached_at + 300_000_000_000)))

  Listed-IsProvided :
      (past : List (ℕ → Round)) (c : Catalog) (now later : ℕ) (rounds : ℕ → Round) (c' : Catalog)
      (rs : List Release)
      → IsSound past c
      → Listed c now later rounds c' (ok rs)
      → IsProvided past c now rounds rs
  Listed-IsProvided past c now later rounds c' rs (inl e) (from_cache h) =
      absurd (ground (arith, h, not_fresh c now e))
  Listed-IsProvided past c now later rounds c' rs (inr (source, m, l)) (from_cache h) =
      (source, l, inr (m, ground (arith, h)))
  Listed-IsProvided past c now later rounds c' rs s (refreshed _ h) =
      (rounds, fetch-IsListing env c rounds rs h, inl refl)

  -- After any history of calls, the releases that List returns are, from the payload of one accepted
  -- reply, every release for the target of the catalog that parses and nothing else, each one trusted,
  -- and no release before a newer one. The reply is one that the network gave in this call or, if the
  -- clock reads less than five minutes after the time of the cache, in an earlier one.
  pub list-IsProvided :
      (c : Catalog) (now later : ℕ) (rounds : ℕ → Round) (c' : Catalog) (rs : List Release)
      (h : History env c)
      → list env c now later rounds ≡ some (c', ok rs)
      → IsProvided (sources h) c now rounds rs
  list-IsProvided c now later rounds c' rs h e =
      Listed-IsProvided (sources h) c now later rounds c' rs (History-IsSound c h)
        (list-Listed c now later rounds c' (ok rs) e)

  Listed-err :
      (c : Catalog) (now later : ℕ) (rounds : ℕ → Round) (c' : Catalog) (r : Result (List Release))
      (e : Error)
      → r ≡ err e
      → Listed c now later rounds c' r
      → c' ≡ c
  Listed-err c now later rounds c' r e h (from_cache k) = refl
  Listed-err c now later rounds c' r e h (refreshed rs k) = absurd (ground (arith, h))
  Listed-err c now later rounds c' r e h (refresh_failed e' k) = refl

  Listed-ok :
      (c : Catalog) (now later : ℕ) (rounds : ℕ → Round) (c' : Catalog) (r : Result (List Release))
      (rs : List Release)
      → r ≡ ok rs
      → Listed c now later rounds c' r
      → c'.cached ≡ rs
  Listed-ok c now later rounds c' r rs h (from_cache k) = ground (arith, h)
  Listed-ok c now later rounds c' r rs h (refreshed rs' k) = ground (arith, h)
  Listed-ok c now later rounds c' r rs h (refresh_failed e k) = absurd (ground (arith, h))

  -- What a call that returned the result leaves for a later call: nothing new after an error; after a
  -- list with a release, the same list for five minutes, whatever the network would answer.
  abbrev pub IsKept :
      Catalog → Catalog → Result (List Release) → (now later : ℕ) → (ℕ → Round) → Type 0
  IsKept c c' (err e) now later rounds = c' ≡ c
  IsKept c c' (ok rs) now later rounds =
      (is_none_kept rs ≡ true)
      ⊎ ((c'.cached_at + 300_000_000_000 ≤ now) ⊎ (list env c' now later rounds ≡ some (c', ok rs)))
