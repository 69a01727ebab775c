-- ===== src/Vshttp/Tests.antt =====
-- Runs of vshttp at concrete inputs, and its theorems there.
use mathlib.Core.Logic.{◌↔◌}
use vintagestory_go.Base.{
  ℕ, zero, suc, ◌*◌, ◌≤◌, ◌<◌, ◌≡◌, refl, ◌⊎◌, true, false, Option, none, some, Text, text, arith,
}
use vintagestory_go.Base.Int.{ℤ, pos, pos_part, ◌≤ℤ◌, ◌<ℤ◌, wrap64}
use vintagestory_go.Base.Strings.{trim_space, atoi}
use vintagestory_go.Vshttp.Errors.{Fault, ApiInfo, Error, nil, fault, api, url_error, is, has_fault}
use vintagestory_go.Vshttp.Message.{error_text}
use vintagestory_go.Vshttp.Request.{Url, Method, Request, Response, sanitize_url}
use vintagestory_go.Vshttp.Retry.{RetryPolicy, normalize, capped, backoff, default_retry_policy}
use vintagestory_go.Vshttp.Retry.Bounds.{IsJittered, backoff-IsJittered, backoff_panics_iff}
use vintagestory_go.Vshttp.Status.{
  transport_error, status_error, check_status, retryable_status, classify, parse_retry_after,
}
use vintagestory_go.Vshttp.Do.{
  Reply, failed, answered, Round, panicked, attempts, is_idempotent, do_request, exchange, again,
  read_body,
}
use vintagestory_go.Vshttp.Do.Loop.{sent, Outcome}
use vintagestory_go.Vshttp.Do.Delays.{Paced, NoPanic}
use vintagestory_go.Vshttp.Do.Promises.{do_request-sent, do_request-Outcome, do_request-Paced}
use vintagestory_go.Vshttp.Do.Panics.{do_request-NoPanic, do_request_overflow}
use vintagestory_go.Vshttp.Json.{Decoded, decoded, ok, decode_json, fetch_json}
use vintagestory_go.Vshttp.Json.Laws.{IsFetched, fetch_json-IsFetched}

abbrev no_dates : Text → Option ℤ
no_dates v = none

abbrev page_url : Url
page_url = record {
  scheme = text "https";
  user = some (text "bob:pw");
  host = text "mods.example";
  path = text "/api/mods";
  raw_query = text "gv=1.20.7";
  fragment = text "top";
}

abbrev get_page : Request
get_page = record { method = Method.get; url = some page_url; has_body = false }

abbrev post_form : Request
post_form = record { method = Method.post; url = some page_url; has_body = true }

abbrev reply_of : ℕ → Text → Text → Reply
reply_of code hint content = answered (record {
  status_code = code;
  status = text "";
  content_type = text "application/json";
  retry_after = hint;
  content = content;
  fault = nil;
})

abbrev quiet_round : Reply → Round
quiet_round r = record { dice = 10; interrupt = none; reply = r; ctx_err = nil }

abbrev reset : Reply
reset = failed (url_error (text "Get: ") (fault Fault.other (text "connection reset")))

-- A reset connection, then 503, then the page.
abbrev recovering : ℕ → Round
recovering zero = quiet_round reset
recovering (suc zero) = quiet_round (reply_of 503 (text "") (text ""))
recovering (suc (suc k)) = quiet_round (reply_of 200 (text "") (text "[]"))

abbrev resets : ℕ → Round
resets k = quiet_round reset

abbrev patient : RetryPolicy
patient = record default_retry_policy { max_attempts = pos 40 }

-- What a run computes with.
running : Unit {0}
unfolding do_request transport_error classify is has_fault backoff wrap64 read_body retryable_status
    status_error parse_retry_after trim_space atoi
running = tt

recovering_run :
    sent (do_request no_dates default_retry_policy (text "op") get_page 100 recovering) ≡ 3
unfolding running
recovering_run = refl

do_request-Outcome_example :
    Outcome no_dates
      (normalize default_retry_policy)
      (text "op")
      get_page
      100
      recovering
      (attempts default_retry_policy get_page)
      (do_request no_dates default_retry_policy (text "op") get_page 100 recovering)
do_request-Outcome_example =
    do_request-Outcome no_dates default_retry_policy (text "op") get_page 100 recovering

do_request-sent_example :
    (1 ≤ sent (do_request no_dates default_retry_policy (text "op") get_page 100 recovering))
    × (sent (do_request no_dates default_retry_policy (text "op") get_page 100 recovering)
        ≤ attempts default_retry_policy get_page)
do_request-sent_example =
    do_request-sent no_dates default_retry_policy (text "op") get_page 100 recovering

do_request-Paced_example :
    Paced
      (λ d.
        (pos 0 ≤ℤ d)
        × ((4 * pos_part d < 5 * (normalize default_retry_policy).max_delay)
            ⊎ (d ≤ℤ pos (normalize default_retry_policy).max_wait)))
      (attempts default_retry_policy get_page)
      (do_request no_dates default_retry_policy (text "op") get_page 100 recovering)
unfolding normalize
do_request-Paced_example =
    do_request-Paced no_dates default_retry_policy (text "op") get_page 100 recovering (omega arith)

do_request-NoPanic_example :
    NoPanic (do_request no_dates default_retry_policy (text "op") get_page 100 recovering)
unfolding normalize
do_request-NoPanic_example =
    do_request-NoPanic no_dates default_retry_policy (text "op") get_page 100 recovering
      (omega arith) (omega arith) (omega arith)

resets_again :
    (k : ℕ)
    → (i : ApiInfo) × (c : Error) × (exchange no_dates
          (text "op")
          get_page
          100
          true
          (resets k).ctx_err
          (resets k).reply
        ≡ again i c)
unfolding running exchange
resets_again k = (_, _, refl)

do_request_overflow_example :
    do_request no_dates patient (text "op") get_page 100 resets ≡ panicked 36
unfolding normalize is_idempotent
do_request_overflow_example =
    do_request_overflow no_dates patient (text "op") get_page 100 resets refl (omega arith)
      (omega arith) refl (λ k. refl) resets_again

-- A decoder that accepts everything.
abbrev keep_text : Text → Decoded Text
keep_text b = decoded b

recovering_fetch :
    fetch_json no_dates keep_text default_retry_policy (text "op") get_page 100 recovering
    ≡ some (ok (text "[]"))
unfolding running fetch_json check_status decode_json
recovering_fetch = refl

fetch_json-IsFetched_example :
    IsFetched no_dates keep_text (text "op") get_page 100 recovering (text "[]")
fetch_json-IsFetched_example =
    fetch_json-IsFetched no_dates keep_text (text "op") get_page default_retry_policy 100 recovering
      (text "[]") recovering_fetch

backoff-IsJittered_example : IsJittered (normalize default_retry_policy) 1 (pos 450_000_010)
unfolding normalize backoff wrap64
backoff-IsJittered_example =
    backoff-IsJittered (normalize default_retry_policy) 1 10 (pos 0) (pos 450_000_010) (omega arith)
      (omega arith) refl

backoff_panics_iff_example :
    (backoff (normalize default_retry_policy) 35 (pos 0) 0 ≡ none)
    ↔ (capped (normalize default_retry_policy) 35 <ℤ pos 2)
backoff_panics_iff_example = backoff_panics_iff (normalize default_retry_policy) 35 0 (pos 0)

abbrev missing : Response
missing = record {
  status_code = 404;
  status = text "404 Not Found";
  content_type = text "";
  retry_after = text "";
  content = text "";
  fault = nil;
}

sanitized : sanitize_url (some page_url) ≡ text "https://mods.example/api/mods"
unfolding sanitize_url
sanitized = refl

message_example :
    error_text (check_status no_dates (text "moddb: get") get_page missing)
    ≡ text "moddb: get: GET https://mods.example/api/mods: unexpected HTTP status 404 Not Found"
unfolding error_text check_status sanitize_url
message_example = refl

-- The text of a transport fault shows the cause, and with it the query that net/http puts there.
shown_query :
    (let (i, e) = transport_error (text "op") get_page (
        url_error
          (text "Get \"https://mods.example/api/mods?gv=1.20.7#top\": ")
          (fault Fault.other (text "connection reset"))) in
      error_text (api i e))
    ≡ text
        "op: GET https://mods.example/api/mods: Get \"https://mods.example/api/mods?gv=1.20.7#top\": connection reset"
unfolding error_text transport_error sanitize_url classify is has_fault
shown_query = refl
