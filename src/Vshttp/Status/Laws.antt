-- ===== src/Vshttp/Status/Laws.antt =====
-- vshttp/do.go: how statuses become errors, and which of them are retried.
use vintagestory_go.Base.{
  ℕ, ◌≤◌, ◌<◌, ◌≡◌, refl, ◌↔◌, ◌⊎◌, inl, inr, Bool, true, false, Option, Text, arith, leb, ◌==◌,
  Bool-cases, ==_iff,
}
use vintagestory_go.Base.Int.{ℤ}
use vintagestory_go.Vshttp.Errors.{Sentinel, nil, api, is, api_is}
use vintagestory_go.Vshttp.Request.{Request, Response}
use vintagestory_go.Vshttp.Status.{status_retryable, retryable_status, status_error, check_status}

-- CheckStatus accepts the statuses 200 to 299 and no other.
pub check_status_iff :
    (until : Text → Option ℤ) (op : Text) (req : Request) (resp : Response)
    → (check_status until op req resp ≡ nil) ↔ ((200 ≤ resp.status_code) × (resp.status_code < 300))
unfolding check_status
check_status_iff until op req resp = (λ h. (ground arith, ground arith), λ h. ground arith)

retryable_status-cases :
    (code : ℕ)
    → retryable_status code ≡ true
    → (code ≡ 429) ⊎ ((code ≡ 502) ⊎ ((code ≡ 503) ⊎ (code ≡ 504)))
unfolding retryable_status
retryable_status-cases code h = ground arith

status_retryable_iff :
    (code : ℕ) → (status_retryable code ≡ true) ↔ ((code ≡ 408) ⊎ (retryable_status code ≡ true))
unfolding status_retryable
status_retryable_iff code = (to, from)
  where
    to : status_retryable code ≡ true → (code ≡ 408) ⊎ (retryable_status code ≡ true)
    to h = elim (Bool-cases (code == 429)) [
      | inl e ↦ inr (rw ((==_iff code 429).0 e) (unfold retryable_status in refl))
      | inr e ↦ ground arith
    ]

    from : (code ≡ 408) ⊎ (retryable_status code ≡ true) → status_retryable code ≡ true
    from (inl e) = rw e
    from (inr h) = ground (arith, retryable_status-cases code h)

-- A status error is retryable exactly for 408 and the four statuses that Do retries.
pub status_error-retryable_iff :
    (until : Text → Option ℤ) (op : Text) (req : Request) (resp : Response)
    → ((status_error until op req resp).0.retryable ≡ true)
      ↔ ((resp.status_code ≡ 408) ⊎ (retryable_status resp.status_code ≡ true))
unfolding status_error
status_error-retryable_iff until op req resp = status_retryable_iff resp.status_code

-- The sentinel that a bad status matches under errors.Is, by its class.
abbrev pub status_sentinel : ℕ → Sentinel → Bool
status_sentinel code Sentinel.unauthorized = code == 401
status_sentinel code Sentinel.forbidden = code == 403
status_sentinel code Sentinel.not_found = code == 404
status_sentinel code Sentinel.rate_limited = code == 429
status_sentinel code Sentinel.server = leb 500 code
status_sentinel code _ = false

-- The error of a bad status matches, under errors.Is, the sentinel of its class and no other.
pub is-status_error :
    (until : Text → Option ℤ) (op : Text) (req : Request) (resp : Response) (s : Sentinel)
    → let (i, e) = status_error until op req resp in
      is (api i e) s ≡ status_sentinel resp.status_code s
unfolding status_error is api_is
is-status_error until op req resp Sentinel.unauthorized = ground arith
is-status_error until op req resp s = ground arith
