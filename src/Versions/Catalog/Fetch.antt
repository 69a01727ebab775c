-- ===== src/Versions/Catalog/Fetch.antt =====
-- versions/versions.go fetch: what the list of releases holds.
use Prim.Native.Nat.{Ordering}
use mathlib.Core.List.{Perm}
use mathlib.Core.List.Perm
use vintagestory_go.Base.{
  ℕ, ◌≡◌, ◌≢◌, refl, sym, ◌∙◌, true, false, Option, none, some, List, [], ◌∷◌, Text, All,
  Option-cases, inl, inr, arith,
}
use vintagestory_go.Base.Sort.{
  IsOrdered, IsStrictWeak, sort_stable-perm, sort_stable-All, sort_stable-IsOrdered,
}
use vintagestory_go.Vshttp.Request.{Url}
use vintagestory_go.Vshttp.Do.{Round}
use vintagestory_go.Vshttp.Json.{Result, ok, err, fetch_json}
use vintagestory_go.Vshttp.Json.Laws.{IsFetched, fetch_json-IsFetched}
use vintagestory_go.Versions.Compare.{compare_versions, negate, or_next}
use vintagestory_go.Versions.Compare.Order.{compare_versions-swap, compare_versions_steps}
use vintagestory_go.Versions.Release.{Release, CatalogFile, distribution_for}
use vintagestory_go.Versions.Release.Laws.{IsTrusted, parse_release-IsTrusted}
use vintagestory_go.Versions.Catalog.{
  Catalog, Payload, Env, find_file, is_gt, is_newer, operation, body_limit, release_of, cons_some,
  releases_of, releases_for, listed, request_to, fetch,
}

is_gt-false : (o : Ordering) → o ≢ Ordering.gt → is_gt o ≡ false
unfolding is_gt
is_gt-false Ordering.lt h = refl
is_gt-false Ordering.eq h = refl
is_gt-false Ordering.gt h = absurd (h refl)

is_gt-eq-true : (o : Ordering) → is_gt o ≡ true → o ≡ Ordering.gt
unfolding is_gt
is_gt-eq-true Ordering.lt h = ground arith
is_gt-eq-true Ordering.eq h = ground arith
is_gt-eq-true Ordering.gt h = refl

is_gt-eq-false : (o : Ordering) → is_gt o ≡ false → o ≢ Ordering.gt
unfolding is_gt
is_gt-eq-false o h e = ground (arith, rw e at h)

negate-gt : (o : Ordering) → negate o ≡ Ordering.gt → o ≢ Ordering.gt
negate-gt Ordering.lt h k = cc
negate-gt Ordering.eq h k = cc
negate-gt Ordering.gt h k = cc

or_next-gt : (o p : Ordering) → o ≢ Ordering.gt → p ≢ Ordering.gt → or_next o p ≢ Ordering.gt
or_next-gt Ordering.lt p h k e = cc
or_next-gt Ordering.eq p h k e = k e
or_next-gt Ordering.gt p h k e = h refl

is_newer-IsStrictWeak : IsStrictWeak is_newer
unfolding is_newer
is_newer-IsStrictWeak = record {
  asym = λ a b h. is_gt-false (compare_versions b.id a.id) (λ e.
      negate-gt (compare_versions a.id b.id) (sym (compare_versions-swap a.id b.id) ∙ e)
        (is_gt-eq-true (compare_versions a.id b.id) h));
  negtrans = λ a b c h k. is_gt-false (compare_versions a.id c.id) (λ e.
      let m = is_gt-eq-false (compare_versions a.id b.id) h in
      let n = is_gt-eq-false (compare_versions b.id c.id) k in
      or_next-gt (compare_versions a.id b.id) (compare_versions b.id c.id) m n
        (sym (compare_versions_steps a.id b.id c.id m n) ∙ e));
}

-- The releases of a payload in its own order: those of the file for the target that parseRelease
-- accepts, and none for a target without releases.
unfoldable pub chosen : Env → Catalog → Payload → List Release
chosen env c payload = elim (distribution_for c.platform c.architecture) [
  | none ↦ []
  | some (key, arch) ↦ releases_of env key c.platform arch payload
]

abbrev pub IsGenuine : Env → Release → Type 0
IsGenuine env r = (raw : Text) × (file : CatalogFile) × IsTrusted env.parse_url raw file r

-- What the list of a fetch is: of the payload of one accepted reply it holds every release for the
-- target that parses, each one trusted, the newest first.
pub record IsListing (env : Env) (c : Catalog) (rounds : ℕ → Round) (rs : List Release)
    : Type 0 where
  pub url : Url
  pub resolved : env.resolve c.endpoint ≡ ok url
  pub payload : Payload
  pub fetched :
      IsFetched env.until env.unmarshal operation (request_to env url) body_limit rounds payload
  pub complete : Perm rs (chosen env c payload)
  pub ordered : IsOrdered is_newer rs
  pub genuine : All (IsGenuine env) rs

cons_some-All {κ} :
    (P : Release → Type κ) (env : Env) (o : Option Release) (rs : List Release)
    → ((r : Release) → o ≡ some r → P r)
    → All P rs
    → All P (cons_some env o rs)
unfolding cons_some
cons_some-All P env none rs h k = k
cons_some-All P env (some r) rs h k = (h r refl, k)

module _ (env : Env) where
  release_of-IsGenuine :
      (key platform arch id : Text) (files : List (Text × CatalogFile)) (r : Release)
      → release_of env key platform arch (id, files) ≡ some r
      → IsGenuine env r
  unfolding release_of
  release_of-IsGenuine key platform arch id files r h = elim (Option-cases (find_file key files)) [
    | inl e ↦ absurd (ground (arith, h, e))
    | inr (f, e) ↦ (
      id,
      f,
      parse_release-IsTrusted env.scaled env.parse_url id f platform arch r (ground (arith, h, e)),
    )
  ]

  releases_of-IsGenuine :
      (key platform arch : Text) (payload : Payload)
      → All (IsGenuine env) (releases_of env key platform arch payload)
  unfolding releases_of
  releases_of-IsGenuine key platform arch [] = tt
  releases_of-IsGenuine key platform arch ((id, files) ∷ payload) =
      cons_some-All (IsGenuine env) env (release_of env key platform arch (id, files))
        (releases_of env key platform arch payload)
        (release_of-IsGenuine key platform arch id files)
        (releases_of-IsGenuine key platform arch payload)

  releases_for-listing :
      (c : Catalog) (payload : Payload)
      → let rs = releases_for env c payload in
        Perm rs (chosen env c payload) × IsOrdered is_newer rs × All (IsGenuine env) rs
  unfolding releases_for chosen
  releases_for-listing c payload = go (distribution_for c.platform c.architecture) refl
    where
      go :
          (o : Option (Text × Text))
          → distribution_for c.platform c.architecture ≡ o
          → let rs = releases_for env c payload in
            Perm rs (chosen env c payload) × IsOrdered is_newer rs × All (IsGenuine env) rs
      go none e = rw (releases_for, chosen, e) (Perm.rfl, tt, tt)
      go (some (key, arch)) e =
          let found = releases_of env key c.platform arch payload in
          rw (releases_for, chosen, e)
            (
              sort_stable-perm is_newer found,
              sort_stable-IsOrdered is_newer is_newer-IsStrictWeak found,
              sort_stable-All is_newer (IsGenuine env) found
                  (releases_of-IsGenuine key c.platform arch payload),
            )

  listed-ok :
      (c : Catalog) (o : Option (Result Payload)) (rs : List Release)
      → listed env c o ≡ some (ok rs)
      → (payload : Payload) × (o ≡ some (ok payload)) × (rs ≡ releases_for env c payload)
  unfolding listed
  listed-ok c none rs h = cc
  listed-ok c (some (err e)) rs h = absurd (ground (arith, h))
  listed-ok c (some (ok payload)) rs h = (payload, refl, ground (arith, h))

  -- A successful fetch lists, from the payload of one accepted reply, every release for the target
  -- that parses and nothing else, each one trusted, and no release before a newer one.
  pub fetch-IsListing :
      (c : Catalog) (rounds : ℕ → Round) (rs : List Release)
      → fetch env c rounds ≡ some (ok rs)
      → IsListing env c rounds rs
  unfolding fetch
  fetch-IsListing c rounds rs h = go (env.resolve c.endpoint) refl
    where
      go : (u : Result Url) → env.resolve c.endpoint ≡ u → IsListing env c rounds rs
      go (err e) k = absurd (ground (arith, rw (fetch, k) at h))
      go (ok u) k =
          let h' = rw (fetch, k) at h in
          let (payload, got, eq) =
            listed-ok c
              (fetch_json env.until env.unmarshal c.retry operation (request_to env u) body_limit
                rounds)
              rs h' in
          let (all_of_it, newest_first, real) = releases_for-listing c payload in
          record {
            url = u;
            resolved = k;
            payload = payload;
            fetched =
                fetch_json-IsFetched env.until env.unmarshal operation (request_to env u) c.retry
                  body_limit rounds payload got;
            complete = rw eq all_of_it;
            ordered = rw eq newest_first;
            genuine = rw eq real;
          }
