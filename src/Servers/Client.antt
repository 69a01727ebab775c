-- ===== src/Servers/Client.antt =====
-- servers/client.go: the client, fetchHTML, List with its cache, and Get. The mutex makes the calls
-- of List a sequence; `now` and `later` are the two readings of the clock of a call.
pub mod Fetch
pub mod Cache
pub mod Details
use vintagestory_go.Base.{
  ℕ, ◌+◌, ltb, Bool, true, false, not, ◌&&◌, Option, none, some, List, [], ◌∷◌, Text, text,
  is_empty, if◌then◌else◌,
}
use vintagestory_go.Base.Int.{ℤ, pos}
use vintagestory_go.Vshttp.Errors.{Kind, Fault, Error, nil, fault, wrapped, api}
use vintagestory_go.Vshttp.Request.{Url, Request, Response, get}
use vintagestory_go.Vshttp.Retry.{RetryPolicy, default_retry_policy}
use vintagestory_go.Vshttp.Status.{check_status}
use vintagestory_go.Vshttp.Do.{Round, do_request}
use vintagestory_go.Vshttp.Json.{Decoded, decoded, undecoded, Result, ok, err, outcome}
use vintagestory_go.Servers.Types.{Server}
use vintagestory_go.Servers.Tree.{Node}
use vintagestory_go.Servers.Errors.{legacy}
use vintagestory_go.Servers.Listing.{parse_servers}
use vintagestory_go.Servers.Detail.{parse_server_detail}
use vintagestory_go.Servers.Location.{detail_url, resolve_urls}

-- A nil slice of servers is the empty list.
pub record Client : Type 0 where
  pub endpoint : Text
  pub retry : RetryPolicy
  pub servers : List Server
  pub fetched_at : ℕ

-- The libraries that the package calls: http.ParseTime, http.NewRequestWithContext, html.Parse,
-- html.Render, url.Parse, and URL.ResolveReference followed by String.
pub record Env : Type 0 where
  pub until : Text → Option ℤ
  pub resolve : Text → Result Url
  pub parse_html : Text → Decoded Node
  pub render : Node → Text
  pub parse_url : Text → Result Url
  pub resolve_text : Url → Url → Text

abbrev pub official_catalog_url : Text
official_catalog_url = text "https://servers.vintagestory.at/"

-- 5 * time.Minute
abbrev pub cache_ttl : ℕ
cache_ttl = 300_000_000_000

-- 4 << 20
abbrev pub max_response_bytes : ℕ
max_response_bytes = 4_194_304

-- NewClientWithURL and NewClient
unfoldable pub new_client_with_url : Text → Client
new_client_with_url endpoint = record {
  endpoint = endpoint;
  retry = default_retry_policy;
  servers = [];
  fetched_at = 0;
}

unfoldable pub new_client : Client
unfolding new_client_with_url
new_client = new_client_with_url official_catalog_url

unfoldable pub set_retry_policy : Client → RetryPolicy → Client
set_retry_policy c p = record c { retry = p }

abbrev pub servers_error : Text → Text → ℕ → Text → Kind → Error → Error
servers_error op endpoint status content_type kind cause =
    api
      (record {
        operation = op;
        method = text "GET";
        endpoint = endpoint;
        status_code = status;
        content_type = content_type;
        kind = kind;
        retryable = false;
        retry_after = pos 0;
        body_size = 0;
        limit = 0;
        legacy = none;
      })
      cause

abbrev pub request_to : Url → Request
request_to u = record { method = get; url = some u; has_body = false }

page_or_error : Text → Text → Response → Decoded Node → Result Node
unfolding legacy
page_or_error op endpoint resp (decoded root) = ok root
page_or_error op endpoint resp (undecoded e) = err (
    legacy (
      servers_error op endpoint resp.status_code resp.content_type Kind.invalid_response
        (wrapped (text "parse HTML: ") e)))

abbrev pub list_op : Text
list_op = text "servers: list catalog"

abbrev pub get_op : Text
get_op = text "servers: get detail"

abbrev pub is_none_kept : List Server → Bool
is_none_kept [] = true
is_none_kept (s ∷ rest) = false

no_listings : Text → Error
unfolding legacy
no_listings endpoint = legacy (
    servers_error list_op endpoint 0 (text "") Kind.invalid_response
      (fault Fault.other (text "catalog contained no server listings")))

module _ (env : Env) where
  checked_page : Text → Text → Response → Text → Error → Result Node
  unfolding page_or_error legacy
  checked_page op endpoint resp content nil =
      page_or_error op endpoint resp (env.parse_html content)
  checked_page op endpoint resp content e = err (legacy e)

  replied : Text → Text → Request → Option (Result (Response × Text)) → Option (Result Node)
  unfolding checked_page legacy
  replied op endpoint req none = none
  replied op endpoint req (some (err e)) = some (err (legacy e))
  replied op endpoint req (some (ok (resp, content))) =
      some (checked_page op endpoint resp content (check_status env.until op req resp))

  -- func fetchHTML; `none` is a panic of Do.
  unfoldable pub fetch_html : Client → Text → Text → (ℕ → Round) → Option (Result Node)
  unfolding replied legacy
  fetch_html c endpoint op rounds = elim (env.resolve endpoint) [
    | err e ↦ some (err (legacy (servers_error op endpoint 0 (text "") Kind.validation e)))
    | ok u ↦
        replied op endpoint (request_to u)
          (outcome (do_request env.until c.retry op (request_to u) max_response_bytes rounds))
  ]

  pub resolved_all : Text → List Server → List Server
  unfolding resolve_urls
  resolved_all endpoint [] = []
  resolved_all endpoint (s ∷ rest) =
      resolve_urls env.parse_url env.resolve_text s endpoint ∷ resolved_all endpoint rest

  -- List after the page: an empty catalog is an error.
  stored : Client → ℕ → List Server → Client × Result (List Server)
  unfolding resolved_all no_listings
  stored c later [] = (c, err (no_listings c.endpoint))
  stored c later (s ∷ rest) =
      let servers = resolved_all c.endpoint (s ∷ rest) in
      (record c { servers = servers; fetched_at = later }, ok servers)

  listed : Client → ℕ → Option (Result Node) → Option (Client × Result (List Server))
  unfolding stored parse_servers
  listed c later none = none
  listed c later (some (err e)) = some (c, err e)
  listed c later (some (ok root)) = some (stored c later (parse_servers root))

  -- c.servers != nil && time.Since(c.fetchedAt) < cacheTTL
  abbrev pub is_fresh : Client → ℕ → Bool
  is_fresh c now = not (is_none_kept c.servers) && ltb now (c.fetched_at + cache_ttl)

  -- func List under the mutex
  unfoldable pub list_servers :
      Client → (now later : ℕ) → (ℕ → Round) → Option (Client × Result (List Server))
  unfolding fetch_html listed
  list_servers c now later rounds =
      if is_fresh c now
      then some (c, ok c.servers)
      else listed c later (fetch_html c c.endpoint list_op rounds)

  detailed : Text → Option Server → Result Server
  unfolding resolve_urls legacy
  detailed endpoint none = err (
      legacy (
        servers_error get_op endpoint 0 (text "") Kind.invalid_response
          (fault Fault.other (text "server detail page contained no server"))))
  detailed endpoint (some s) =
      ok (resolve_urls env.parse_url env.resolve_text (record s { url = endpoint }) endpoint)

  shown : Text → Option (Result Node) → Option (Result Server)
  unfolding detailed parse_server_detail
  shown endpoint none = none
  shown endpoint (some (err e)) = some (err e)
  shown endpoint (some (ok root)) = some (detailed endpoint (parse_server_detail env.render root))

  asked : Client → Result Text → (ℕ → Round) → Option (Result Server)
  unfolding shown fetch_html legacy
  asked c (err e) rounds =
      some (err (legacy (servers_error get_op c.endpoint 0 (text "") Kind.validation e)))
  asked c (ok endpoint) rounds = shown endpoint (fetch_html c endpoint get_op rounds)

  -- func Get
  unfoldable pub get_server : Client → Text → (ℕ → Round) → Option (Result Server)
  unfolding asked detail_url legacy
  get_server c id rounds =
      if is_empty id
      then some (
          err (
            legacy (
              servers_error get_op c.endpoint 0 (text "") Kind.validation
                (fault Fault.other (text "server ID is empty")))))
      else asked c (detail_url env.parse_url c.endpoint id) rounds
