-- ===== src/Moddb/Client/Stale.antt =====
-- moddb/client.go list and List: what a call returns with an error.
use vintagestory_go.Base.{
  Text, eq_text, ℕ, ◌+◌, ◌<◌, ◌≡◌, inl, inr, refl, true, false, Option, none, some, List, [], ◌++◌,
  text, Bool-cases, arith,
}
use vintagestory_go.Vshttp.Errors.{Sentinel, Sentinel-discrete, Error, nil, is, is_nil}
use vintagestory_go.Vshttp.Request.{Url}
use vintagestory_go.Vshttp.Retry.{RetryPolicy}
use vintagestory_go.Vshttp.Legacy.{legacy_by-present}
use vintagestory_go.Vshttp.Json.Laws.{fetch_json-err}
use vintagestory_go.Moddb.Errors.{legacy, api_status_error}
use vintagestory_go.Vshttp.Do.{Round}
use vintagestory_go.Vshttp.Json.{Result, ok, err, fetch_json}
use vintagestory_go.Moddb.Types.{Mod, ModsResponse}
use vintagestory_go.Moddb.Client.{
  Client, Env, Reply, is_none_kept, with_legacy_error, request_to, max_reply_bytes, get_json,
  mods_reply, stale_error, interrupted, fall_back, fetch_mods, catalog_flight, after_flight,
  is_fresh, list, list_operation,
}

-- The reply to a fetch that failed: the last catalog that a fetch gave, marked as stale, or the failure
-- without data.
pub data IsDegraded (c : Client) (e : Error) : Reply → Type 0 where
  served :
      is_none_kept c.catalog ≡ false
      → is (stale_error e) Sentinel.moddb_stale ≡ true
      → IsDegraded c e (c.catalog, stale_error e)
  refused : is_none_kept c.catalog ≡ true → IsDegraded c e ([], e)

-- What a call of list that is not interrupted comes to.
pub data IsReply (env : Env) (c : Client) (now later : ℕ) (rounds : ℕ → Round)
    : Client → Reply → Type 0 where
  kept :
      is_none_kept c.catalog ≡ false
      → now < c.catalog_at + 600_000_000_000
      → IsReply env c now later rounds c (c.catalog, nil)
  fetched :
      (items : List Mod)
      → fetch_mods env c (list_operation env) (c.base_url ++ text "/mods") rounds ≡ some (ok items)
      → IsReply env c now later rounds
          (record c { catalog = items; catalog_at = later })
          (items, nil)
  degraded :
      {r : Reply}
      → (e : Error)
      → fetch_mods env c (list_operation env) (c.base_url ++ text "/mods") rounds ≡ some (err e)
      → is_nil e ≡ false
      → IsDegraded c e r
      → IsReply env c now later rounds c r

stale_error-is : (e : Error) → is (stale_error e) Sentinel.moddb_stale ≡ true
unfolding is Sentinel-discrete
stale_error-is e = refl

fall_back-IsDegraded : (c : Client) (e : Error) → IsDegraded c e (fall_back c.catalog e)
unfolding fall_back
fall_back-IsDegraded c e = elim (Bool-cases (is_none_kept c.catalog)) [
  | inl h ↦ rw h (refused h)
  | inr h ↦ rw h (served h (stale_error-is e))
]

legacy_present : (e : Error) → is_nil e ≡ false → is_nil (legacy e) ≡ false
unfolding legacy
legacy_present e h = legacy_by-present _ e h

api_status_error-present :
    (op endpoint code : Text) → is_nil (api_status_error op endpoint code) ≡ false
unfolding api_status_error
api_status_error-present op endpoint code = elim (Bool-cases (eq_text code (text "404"))) [
  | inl e ↦ rw e refl
  | inr e ↦ rw e refl
]

module _ (env : Env) where
  get_json-err :
      (retry : RetryPolicy) (op endpoint : Text) (rounds : ℕ → Round) (e : Error)
      → get_json env env.unmarshal_mods retry op endpoint rounds ≡ some (err e)
      → is_nil e ≡ false
  unfolding get_json
  get_json-err retry op endpoint rounds e h = go (env.resolve endpoint) refl
    where
      from :
          (u : Url) (o : Option (Result ModsResponse))
          → fetch_json env.until env.unmarshal_mods retry op
              (request_to env u)
              max_reply_bytes
              rounds
            ≡ o
          → with_legacy_error env o ≡ some (err e)
          → is_nil e ≡ false
      from u none f k = unfold with_legacy_error in absurd (ground (arith, k))
      from u (some (ok a)) f k = unfold with_legacy_error in absurd (ground (arith, k))
      from u (some (err x)) f k =
          unfold with_legacy_error in
          let same : legacy x ≡ e = ground (arith, k) in
          rw (← same) (
            legacy_present x (
              fetch_json-err env.until env.unmarshal_mods op (request_to env u) retry
                max_reply_bytes rounds x f))

      go : (o : Result Url) → env.resolve endpoint ≡ o → is_nil e ≡ false
      go (err x) k = ground (arith, rw (get_json, k) at h)
      go (ok u) k = from u _ refl (rw (get_json, k) at h)

  mods_reply-err :
      (op endpoint : Text) (o : Option (Result ModsResponse)) (e : Error)
      → ((x : Error) → o ≡ some (err x) → is_nil x ≡ false)
      → mods_reply env op endpoint o ≡ some (err e)
      → is_nil e ≡ false
  unfolding mods_reply api_status_error
  mods_reply-err op endpoint none e n h = absurd (ground (arith, h))
  mods_reply-err op endpoint (some (err x)) e n h =
      let same : x ≡ e = ground (arith, h) in rw (← same) (n x refl)
  mods_reply-err op endpoint (some (ok r)) e n h =
      elim (Bool-cases (eq_text r.status_code (text "200"))) [
        | inl k ↦ absurd (ground (arith, h, k))
        | inr k ↦
            let same : legacy (api_status_error op endpoint r.status_code) ≡ e =
              ground (arith, h, k) in
            rw (← same) (
              legacy_present (api_status_error op endpoint r.status_code)
                (api_status_error-present op endpoint r.status_code))
      ]

  -- An error of fetchMods is not nil.
  fetch_mods-err :
      (c : Client) (op endpoint : Text) (rounds : ℕ → Round) (e : Error)
      → fetch_mods env c op endpoint rounds ≡ some (err e)
      → is_nil e ≡ false
  unfolding fetch_mods
  fetch_mods-err c op endpoint rounds e h =
      mods_reply-err op endpoint (get_json env env.unmarshal_mods c.retry op endpoint rounds) e
        (λ x k. get_json-err c.retry op endpoint rounds x k) h

  flight-IsReply :
      (c : Client) (now later : ℕ) (rounds : ℕ → Round) (o : Option (Result (List Mod)))
      (c' : Client) (r : Reply)
      → fetch_mods env c (list_operation env) (c.base_url ++ text "/mods") rounds ≡ o
      → after_flight env none (catalog_flight env c later o) ≡ some (c', r)
      → IsReply env c now later rounds c' r
  unfolding catalog_flight after_flight interrupted
  flight-IsReply c now later rounds none c' r f h = cc
  flight-IsReply c now later rounds (some (err e)) c' r f h =
      let (m, n) : (c ≡ c') × (fall_back c.catalog e ≡ r) = ground (arith, h) in
      rw (← m, ← n)
        (degraded e f
          (fetch_mods-err c (list_operation env) (c.base_url ++ text "/mods") rounds e f)
          (fall_back-IsDegraded c e))
  flight-IsReply c now later rounds (some (ok items)) c' r f h =
      let (m, n) : (record c { catalog = items; catalog_at = later } ≡ c') × ((items, nil) ≡ r) =
        ground (arith, h) in
      rw (← m, ← n) (fetched items f)

  -- A call of list that its context does not interrupt returns the kept catalog, which is there and
  -- less than ten minutes old, or fetches a new one and keeps it, or keeps the client as it was and
  -- returns the error of its fetch, which is not nil: with the catalog of the last fetch and marked
  -- with ErrStale if there is one, else without data.
  pub list-IsReply :
      (c : Client) (now later : ℕ) (rounds : ℕ → Round) (c' : Client) (r : Reply)
      → list env c now later none rounds ≡ some (c', r)
      → IsReply env c now later rounds c' r
  unfolding list
  list-IsReply c now later rounds c' r h = elim (Bool-cases (is_fresh env c now)) [
    | inl e ↦
        let (m, n) : (c ≡ c') × ((c.catalog, nil) ≡ r) = ground (arith, h, e) in
        let full : is_none_kept c.catalog ≡ false = ground (arith, e) in
        let early : now < c.catalog_at + 600_000_000_000 = ground (arith, e) in
        rw (← m, ← n) (kept full early)
    | inr e ↦
        flight-IsReply c now later rounds
          (fetch_mods env c (list_operation env) (c.base_url ++ text "/mods") rounds) c' r refl
          (ground (arith, h, e))
  ]
