-- ===== src/Vshttp/Errors.antt =====
-- vshttp/vshttp.go: error kinds, sentinels and APIError; Go's errors.Is and errors.As on the error
-- values of the program. An error is a tree: the values that the program makes and, from the
-- network stack, the faults that its code tells apart.
use vintagestory_go.Base.{ℕ, Bool, true, false, ◌||◌, Option, none, some, Text, if◌then◌else◌}
use vintagestory_go.Base.Int.{ℤ}
use mathlib.Core.Logic.{ite}

pub data Kind : Type 0 where
  unknown network timeout canceled dns tls http_status rate_limit : Kind
  unauthorized forbidden not_found server_error response_too_large body_read : Kind
  invalid_json invalid_response validation : Kind

-- The values made by errors.New, of the packages and of context and io.
pub data Sentinel : Type 0 where
  canceled deadline_exceeded unexpected_eof : Sentinel
  invalid_response response_too_large rate_limited unauthorized forbidden not_found server :
      Sentinel
  auth_invalid_credentials auth_totp_required auth_ip_changed auth_temporarily_blocked : Sentinel
  auth_session_expired auth_invalid_reply auth_network auth_server auth_unknown : Sentinel
  moddb_not_found moddb_unavailable moddb_invalid_response moddb_stale : Sentinel
  servers_unavailable servers_invalid_catalog : Sentinel
  news_unavailable news_invalid_feed : Sentinel
  versions_unavailable versions_invalid_response : Sentinel

unfoldable pub Sentinel-discrete : Discrete Sentinel
Sentinel-discrete = hlevel

-- s == t
abbrev pub same : Sentinel → Sentinel → Bool
same s t = ite (Sentinel-discrete s t) true false

-- The fields of APIError but its cause. No response means status 0; no legacy sentinel is `none`.
pub record ApiInfo : Type 0 where
  pub operation : Text
  pub method : Text
  pub endpoint : Text
  pub status_code : ℕ
  pub content_type : Text
  pub kind : Kind
  pub retryable : Bool
  pub retry_after : ℤ
  pub body_size : ℕ
  pub limit : ℕ
  pub legacy : Option Sentinel

-- What a fault of the network stack or of the JSON decoder is, as far as errors.As tells.
pub data Fault : Type 0 where
  dns_error net_error : (timeout : Bool) → Fault
  record_header verification unknown_authority hostname syntax other : Fault

-- A Go error value. `nil` is no error; `wrapped m e` prints m before e, `joined a m b` prints m
-- between the two, and `url_error` is the *url.Error that http.Client.Do returns.
pub data Error : Type 0 where
  nil : Error
  sentinel : Sentinel → Error
  fault : Fault → Text → Error
  wrapped : Text → Error → Error
  joined : Error → Text → Error → Error
  url_error : Text → Error → Error
  api : ApiInfo → (cause : Error) → Error

abbrev pub is_nil : Error → Bool
is_nil nil = true
is_nil (sentinel s) = false
is_nil (fault f m) = false
is_nil (wrapped m e) = false
is_nil (joined a m b) = false
is_nil (url_error m e) = false
is_nil (api i e) = false

kind_is : Sentinel → Kind → Bool
kind_is Sentinel.rate_limited Kind.rate_limit = true
kind_is Sentinel.response_too_large Kind.response_too_large = true
kind_is Sentinel.invalid_response Kind.invalid_response = true
kind_is Sentinel.invalid_response Kind.invalid_json = true
kind_is Sentinel.unauthorized Kind.unauthorized = true
kind_is Sentinel.forbidden Kind.forbidden = true
kind_is Sentinel.not_found Kind.not_found = true
kind_is Sentinel.server Kind.server_error = true
kind_is _ _ = false

is_legacy : Option Sentinel → Sentinel → Bool
is_legacy none target = false
is_legacy (some s) target = same target s

-- func (e *APIError) Is
unfoldable pub api_is : ApiInfo → Sentinel → Bool
unfolding kind_is is_legacy
api_is i target = if is_legacy i.legacy target then true else kind_is target i.kind

-- errors.Is(err, target)
unfoldable pub is : Error → Sentinel → Bool
is nil t = false
is (sentinel s) t = same s t
is (fault f m) t = false
is (wrapped m e) t = is e t
is (joined a m b) t = is a t || is b t
is (url_error m e) t = is e t
is (api i e) t = api_is i t || is e t

abbrev or_else {ℓ} : {A : Type ℓ} → Option A → Option A → Option A
or_else none o = o
or_else (some a) o = some a

-- errors.As(err, &apiErr): the first APIError of the tree, with its cause
unfoldable pub as_api : Error → Option (ApiInfo × Error)
as_api nil = none
as_api (sentinel s) = none
as_api (fault f m) = none
as_api (wrapped m e) = as_api e
as_api (joined a m b) = or_else (as_api a) (as_api b)
as_api (url_error m e) = as_api e
as_api (api i e) = some (i, e)

-- errors.As(err, &x) for a fault of a type that the test accepts
unfoldable pub has_fault : (Fault → Bool) → Error → Bool
has_fault p nil = false
has_fault p (sentinel s) = false
has_fault p (fault f m) = p f
has_fault p (wrapped m e) = has_fault p e
has_fault p (joined a m b) = has_fault p a || has_fault p b
has_fault p (url_error m e) = has_fault p e
has_fault p (api i e) = has_fault p e

-- func (e *APIError) WithLegacy; `e.Legacy = sentinel`
unfoldable pub with_legacy : ApiInfo → Sentinel → ApiInfo
with_legacy i s = record i { legacy = some s }
