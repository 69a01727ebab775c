-- ===== src/News/Client.antt =====
-- news/client.go and news/errors.go: fetch and List. The redirect policy of the default client is in
-- News/Redirects; the user agent is not modelled.
pub mod Laws
use vintagestory_go.Base.{
  ℕ, false, not, Option, none, some, List, Text, text, length, if◌then◌else◌,
}
use vintagestory_go.Base.Int.{ℤ, pos}
use vintagestory_go.Vshttp.Errors.{Kind, Sentinel, Error, nil, sentinel, joined, api, is_nil}
use vintagestory_go.Vshttp.Legacy.{legacy_by}
use vintagestory_go.Vshttp.Request.{Url, Request, Response, get}
use vintagestory_go.Vshttp.Retry.{RetryPolicy, default_retry_policy}
use vintagestory_go.Vshttp.Status.{check_status}
use vintagestory_go.Vshttp.Do.{Round, do_request}
use vintagestory_go.Vshttp.Json.{Result, ok, err, outcome}
use vintagestory_go.News.Types.{Item, Readers}
use vintagestory_go.News.Parser.{parse}

legacy_sentinel : Kind → Sentinel
legacy_sentinel Kind.invalid_json = Sentinel.news_invalid_feed
legacy_sentinel Kind.invalid_response = Sentinel.news_invalid_feed
legacy_sentinel Kind.response_too_large = Sentinel.news_invalid_feed
legacy_sentinel _ = Sentinel.news_unavailable

-- func legacy
unfoldable pub legacy : Error → Error
unfolding legacy_by legacy_sentinel
legacy e = legacy_by legacy_sentinel e

pub record Client : Type 0 where
  pub primary_url : Text
  pub fallback_url : Text
  pub retry : RetryPolicy

-- NewClient
unfoldable pub new_client : Client
new_client = record {
  primary_url = text "https://www.vintagestory.at/blog.html/?rss=1";
  fallback_url = text "https://www.vintagestory.at/forums/forum/7-news.xml/";
  retry = default_retry_policy;
}

unfoldable pub set_retry_policy : Client → RetryPolicy → Client
set_retry_policy c p = record c { retry = p }

-- The libraries that the package calls: http.ParseTime, http.NewRequestWithContext and the readers of
-- the parser.
pub record Env : Type 0 where
  pub until : Text → Option ℤ
  pub resolve : Text → Result Url
  pub readers : Readers

-- 4 << 20
abbrev pub max_response_bytes : ℕ
max_response_bytes = 4_194_304

abbrev pub operation : Text
operation = text "news: fetch feed"

abbrev pub feed_error : Text → ℕ → Text → Kind → ℕ → Error → Error
feed_error endpoint status content_type kind size cause =
    api
      (record {
        operation = operation;
        method = text "GET";
        endpoint = endpoint;
        status_code = status;
        content_type = content_type;
        kind = kind;
        retryable = false;
        retry_after = pos 0;
        body_size = size;
        limit = 0;
        legacy = none;
      })
      cause

abbrev pub request_to : Url → Request
request_to u = record { method = get; url = some u; has_body = false }

feed_or_error : Text → Response → Text → Result (List Item) → Result (List Item)
unfolding legacy
feed_or_error endpoint resp content (ok items) = ok items
feed_or_error endpoint resp content (err e) = err (
    legacy (
      feed_error endpoint resp.status_code resp.content_type Kind.invalid_response (length content)
        e))

module _ (env : Env) where
  checked_feed : Text → Response → Text → Error → Result (List Item)
  unfolding feed_or_error legacy
  checked_feed endpoint resp content nil =
      feed_or_error endpoint resp content (parse env.readers content)
  checked_feed endpoint resp content e = err (legacy e)

  replied : Text → Request → Option (Result (Response × Text)) → Option (Result (List Item))
  unfolding checked_feed legacy
  replied endpoint req none = none
  replied endpoint req (some (err e)) = some (err (legacy e))
  replied endpoint req (some (ok (resp, content))) =
      some (checked_feed endpoint resp content (check_status env.until operation req resp))

  -- func fetch; `none` is a panic of Do.
  unfoldable pub fetch : Client → Text → (ℕ → Round) → Option (Result (List Item))
  unfolding replied legacy
  fetch c endpoint rounds = elim (env.resolve endpoint) [
    | err e ↦ some (err (legacy (feed_error endpoint 0 (text "") Kind.validation 0 e)))
    | ok u ↦
        replied endpoint (request_to u) (
          outcome (do_request env.until c.retry operation (request_to u) max_response_bytes rounds))
  ]

  second_try : Error → Option (Result (List Item)) → Option (Result (List Item))
  second_try e none = none
  second_try e (some (ok items)) = some (ok items)
  second_try e (some (err f)) =
      some (err (joined (sentinel Sentinel.news_unavailable) (text ": ") (joined e (text "\n") f)))

  -- After the primary feed: ctx.Err(), then the fallback.
  first_try :
      Client → Error → (ℕ → Round) → Option (Result (List Item)) → Option (Result (List Item))
  unfolding second_try
  first_try c ctx_err rounds none = none
  first_try c ctx_err rounds (some (ok items)) = some (ok items)
  first_try c ctx_err rounds (some (err e)) =
      if not (is_nil ctx_err) then some (err e) else second_try e (fetch c c.fallback_url rounds)

  -- func List
  unfoldable pub list_news :
      Client → (first : ℕ → Round) → Error → (second : ℕ → Round) → Option (Result (List Item))
  unfolding fetch first_try
  list_news c first ctx_err second = first_try c ctx_err second (fetch c c.primary_url first)
