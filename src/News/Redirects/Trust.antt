-- ===== src/News/Redirects/Trust.antt =====
-- news/client.go NewClient: where a chain of redirects can end.
use vintagestory_go.Base.{
  ℕ, zero, suc, ◌+◌, ◌≤◌, ◌≡◌, ◌⊎◌, inl, inr, refl, true, Option, none, some, text, eq_text,
  eq_text_iff, arith,
}
use vintagestory_go.Base.Strings.{equal_fold}
use vintagestory_go.Base.Urls.{hostname}
use vintagestory_go.Vshttp.Errors.{Error}
use vintagestory_go.Vshttp.Request.{Url}
use vintagestory_go.News.Redirects.{
  check_redirect, Hop, moved, final, Landing, landed, stopped, follow,
}

-- An address of the official site.
abbrev pub IsOfficialSite : Url → Type 0
IsOfficialSite u =
    (u.scheme ≡ text "https") × (equal_fold (hostname u.host) (text "www.vintagestory.at") ≡ true)

-- Where the loop ends: at the first address or at one of the official site, or at a redirect that
-- the policy refuses, in each case after at most five requests.
abbrev pub IsTrustedEnd : Url → (Url → Hop) → Landing → Type 0
IsTrustedEnd first server (landed resp u n) =
    (n ≤ 5) × (server u ≡ final resp) × ((u ≡ first) ⊎ IsOfficialSite u)
IsTrustedEnd first server (stopped e n) = n ≤ 5

check_redirect-none :
    (via : ℕ) (u : Url) → check_redirect via u ≡ none → (via ≤ 4) × IsOfficialSite u
unfolding check_redirect
check_redirect-none via u h =
    let early : via ≤ 4 = ground (arith, h) in
    let secure : eq_text u.scheme (text "https") ≡ true = ground (arith, h) in
    let site : equal_fold (hostname u.host) (text "www.vintagestory.at") ≡ true =
      ground (arith, h) in
    (early, ((eq_text_iff u.scheme (text "https")).0 secure, site))

module _ (first : Url) (server : Url → Hop) where
  -- From any address reached so far, the fuel that is left is enough.
  follow_from :
      (fuel via : ℕ) (u : Url)
      → via + fuel ≡ 5
      → via ≤ 4
      → (u ≡ first) ⊎ IsOfficialSite u
      → (l : Landing) × (follow check_redirect server fuel via u ≡ some l)
        × IsTrustedEnd first server l
  unfolding follow
  follow_from zero via u h k t = absurd (omega (arith, h, k))
  follow_from (suc fuel) via u h k t = hop (server u) refl (follow_from fuel (suc via))
    where
      checked :
          (v : Url) (o : Option Error)
          → server u ≡ moved v
          → check_redirect (suc via) v ≡ o
          → ((w : Url)
              → suc via + fuel ≡ 5
              → suc via ≤ 4
              → (w ≡ first) ⊎ IsOfficialSite w
              → (l : Landing) × (follow check_redirect server fuel (suc via) w ≡ some l)
                × IsTrustedEnd first server l)
          → (l : Landing) × (follow check_redirect server (suc fuel) via u ≡ some l)
            × IsTrustedEnd first server l
      checked v (some e) m c ih =
          (stopped e (suc via), rw (follow, m) (rw c refl), omega (arith, h))
      checked v none m c ih =
          let (early, site) = check_redirect-none (suc via) v c in
          let (l, ends, good) = ih v (omega (arith, h)) early (inr site) in
          (l, rw (follow, m) (rw c ends), good)

      hop :
          (x : Hop)
          → server u ≡ x
          → ((w : Url)
              → suc via + fuel ≡ 5
              → suc via ≤ 4
              → (w ≡ first) ⊎ IsOfficialSite w
              → (l : Landing) × (follow check_redirect server fuel (suc via) w ≡ some l)
                × IsTrustedEnd first server l)
          → (l : Landing) × (follow check_redirect server (suc fuel) via u ≡ some l)
            × IsTrustedEnd first server l
      hop (final resp) m ih =
          (landed resp u (suc via), rw (follow, m) refl, (omega (arith, h), m, t))
      hop (moved v) m ih = checked v (check_redirect (suc via) v) m refl ih

  -- Whatever the servers answer, a redirect loop included, the default client of package news ends
  -- after at most five requests: with a response of the feed's own address or of an https address
  -- of www.vintagestory.at, or with the refusal of a redirect.
  pub follow-IsTrustedEnd :
      (l : Landing) × (follow check_redirect server 5 0 first ≡ some l)
      × IsTrustedEnd first server l
  follow-IsTrustedEnd = follow_from 5 0 first (omega arith) (omega arith) (inl refl)
