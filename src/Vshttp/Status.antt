-- ===== src/Vshttp/Status.antt =====
-- vshttp/do.go: the classification of transport errors and of HTTP statuses.
pub mod Laws
use vintagestory_go.Base.{
  ℕ, Bool, true, false, ◌&&◌, ◌||◌, Option, none, some, ◌++◌, Text, text, is_empty, leb, ltb, ◌==◌,
  if◌then◌else◌,
}
use vintagestory_go.Base.Int.{ℤ, pos, negsuc, ltb_ℤ, wrap64}
use vintagestory_go.Base.Strings.{trim_space, atoi}
use vintagestory_go.Vshttp.Errors.{
  Kind, Sentinel, ApiInfo, Fault, dns_error, net_error, record_header, verification,
  unknown_authority, hostname, other, Error, nil, sentinel, fault, wrapped, joined, url_error, api,
  is, has_fault,
}
use vintagestory_go.Vshttp.Request.{Request, Response, method_text, sanitize_url}
use vintagestory_go.Vshttp.Retry.{seconds}

abbrev is_dns : Fault → Bool
is_dns (dns_error t) = true
is_dns _ = false

abbrev is_tls : Fault → Bool
is_tls record_header = true
is_tls verification = true
is_tls unknown_authority = true
is_tls hostname = true
is_tls _ = false

-- What (*url.Error).Timeout asks of the error that it wraps.
own_timeout : Error → Bool
own_timeout (sentinel Sentinel.deadline_exceeded) = true
own_timeout (fault (dns_error t) m) = t
own_timeout (fault (net_error t) m) = t
own_timeout (url_error m e) = own_timeout e
own_timeout _ = false

fault_timeout : Fault → Option Bool
fault_timeout (dns_error t) = some t
fault_timeout (net_error t) = some t
fault_timeout _ = none

first_some : Option Bool → Option Bool → Option Bool
first_some none o = o
first_some (some b) o = some b

abbrev deadline_timeout : Sentinel → Option Bool
deadline_timeout Sentinel.deadline_exceeded = some true
deadline_timeout _ = none

-- errors.As(err, &netErr), then netErr.Timeout()
net_timeout : Error → Option Bool
unfolding own_timeout fault_timeout first_some
net_timeout nil = none
net_timeout (sentinel s) = deadline_timeout s
net_timeout (fault f m) = fault_timeout f
net_timeout (wrapped m e) = net_timeout e
net_timeout (joined a m b) = first_some (net_timeout a) (net_timeout b)
net_timeout (url_error m e) = some (own_timeout e)
net_timeout (api i e) = net_timeout e

abbrev holds : Option Bool → Bool
holds none = false
holds (some b) = b

-- func classify
unfoldable pub classify : Error → Kind × Bool
unfolding net_timeout
classify err =
    if is err Sentinel.canceled
    then (Kind.canceled, false)
    else if is err Sentinel.deadline_exceeded
    then (Kind.timeout, true)
    else if has_fault is_dns err
    then (Kind.dns, true)
    else if has_fault is_tls err
    then (Kind.tls, false)
    else if holds (net_timeout err)
    then (Kind.timeout, true)
    else (Kind.network, true)

-- The APIError of an operation on a request before a response is known.
abbrev pub request_info : Text → Request → Kind → Bool → ApiInfo
request_info op req kind retryable = record {
  operation = op;
  method = method_text req.method;
  endpoint = sanitize_url req.url;
  status_code = 0;
  content_type = text "";
  kind = kind;
  retryable = retryable;
  retry_after = pos 0;
  body_size = 0;
  limit = 0;
  legacy = none;
}

-- The same with the status and the content type of a response.
abbrev pub response_info : Text → Request → Response → Kind → Bool → ApiInfo
response_info op req resp kind retryable = record (request_info op req kind retryable) {
  status_code = resp.status_code;
  content_type = resp.content_type;
}

-- func transportError
unfoldable pub transport_error : Text → Request → Error → ApiInfo × Error
transport_error op req err =
    let (kind, retryable) = classify err in (request_info op req kind retryable, err)

unfoldable pub retryable_status : ℕ → Bool
retryable_status code = code == 429 || code == 502 || code == 503 || code == 504

-- Time enters as `until`: http.ParseTime, then time.Until, on the text of a date.
seconds_hint : ℤ → ℤ
seconds_hint (pos n) = wrap64 (seconds n)
seconds_hint (negsuc n) = pos 0

date_hint : Option ℤ → ℤ
date_hint none = pos 0
date_hint (some d) = if ltb_ℤ d (pos 0) then pos 0 else d

-- func parseRetryAfter
unfoldable pub parse_retry_after : (Text → Option ℤ) → Text → ℤ
unfolding seconds_hint date_hint
parse_retry_after until value =
    let v = trim_space value in
    let (n, fine) = atoi v in
    if is_empty v then pos 0 else if fine then seconds_hint n else date_hint (until v)

status_kind : ℕ → Kind
status_kind code =
    if code == 401
    then Kind.unauthorized
    else if code == 403
    then Kind.forbidden
    else if code == 404
    then Kind.not_found
    else if code == 408
    then Kind.timeout
    else if code == 429
    then Kind.rate_limit
    else if leb 500 code
    then Kind.server_error
    else Kind.http_status

status_retryable : ℕ → Bool
unfolding retryable_status
status_retryable code =
    if code == 401
    then false
    else if code == 403
    then false
    else if code == 404
    then false
    else if code == 408
    then true
    else if code == 429
    then true
    else if leb 500 code
    then retryable_status code
    else false

-- func statusError
unfoldable pub status_error : (Text → Option ℤ) → Text → Request → Response → ApiInfo × Error
unfolding status_kind status_retryable
status_error until op req resp = (
  record (response_info op req resp (status_kind resp.status_code)
      (status_retryable resp.status_code)) {
        retry_after =
            if resp.status_code == 429 then parse_retry_after until resp.retry_after else pos 0;
      },
  fault other (text "unexpected HTTP status " ++ resp.status),
)

-- func CheckStatus
unfoldable pub check_status : (Text → Option ℤ) → Text → Request → Response → Error
unfolding status_error
check_status until op req resp =
    if leb 200 resp.status_code && ltb resp.status_code 300
    then nil
    else let (i, e) = status_error until op req resp in api i e
