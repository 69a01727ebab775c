-- ===== src/News/Redirects.antt =====
-- news/client.go NewClient: the redirect policy of the client that a nil client stands for, under the
-- loop of http.Client.Do: it asks the policy before it follows a redirect, with the next request and
-- the requests made so far, and returns the error of the policy if there is one.
pub mod Trust
use vintagestory_go.Base.{
  ℕ, zero, suc, leb, not, ◌||◌, Option, none, some, text, eq_text, if◌then◌else◌,
}
use vintagestory_go.Base.Strings.{equal_fold}
use vintagestory_go.Base.Urls.{hostname}
use vintagestory_go.Vshttp.Errors.{Fault, Error, fault}
use vintagestory_go.Vshttp.Request.{Url, Response}

-- The closure CheckRedirect: `via` is the number of the requests made so far.
unfoldable pub check_redirect : (via : ℕ) → Url → Option Error
unfolding equal_fold hostname
check_redirect via u =
    if leb 5 via
      || not (eq_text u.scheme (text "https"))
      || not (equal_fold (hostname u.host) (text "www.vintagestory.at"))
    then some (fault Fault.other (text "official news redirected to an untrusted URL"))
    else none

-- What a server answers to a request: another address, or a response that is no redirect.
pub data Hop : Type 0 where
  moved : Url → Hop
  final : Response → Hop

-- What the loop ends with: the response, the address that gave it and the number of requests; or the
-- error of the policy after so many requests.
pub data Landing : Type 0 where
  landed : Response → Url → (requests : ℕ) → Landing
  stopped : Error → (requests : ℕ) → Landing

module _ (policy : ℕ → Url → Option Error) (server : Url → Hop) where
  -- The loop of http.Client.Do after `via` requests; `none` if the fuel runs out.
  unfoldable pub follow : (fuel via : ℕ) → Url → Option Landing
  follow zero via u = none
  follow (suc fuel) via u = elim (server u) [
    | final resp ↦ some (landed resp u (suc via))
    | moved v ↦ elim (policy (suc via) v) [
      | some e ↦ some (stopped e (suc via))
      | none ↦ follow fuel (suc via) v
    ]
  ]
