-- ===== src/Servers/Tests/Calls.antt =====
-- Runs of the client of package servers: List and Get.
use vintagestory_go.Base.{ℕ, ◌≡◌, refl, true, none, some, List, [], ◌∷◌, text}
use vintagestory_go.Base.Int.{wrap64}
use vintagestory_go.Vshttp.Errors.{
  Error, Sentinel, Sentinel-discrete, nil, is, has_fault, as_api, api_is,
}
use vintagestory_go.Vshttp.Retry.{normalize, backoff}
use vintagestory_go.Vshttp.Status.{
  classify, transport_error, retryable_status, status_error, parse_retry_after, check_status,
}
use vintagestory_go.Vshttp.Do.{Round, failed, answered, do_request, read_body, is_idempotent}
use vintagestory_go.Vshttp.Json.{decoded, ok, err, outcome}
use vintagestory_go.Servers.Types.{Server}
use vintagestory_go.Servers.Tree.{Node, other_node, nil}
use vintagestory_go.Servers.Location.{resolve, resolve_urls}
use vintagestory_go.Servers.Errors.{legacy}
use vintagestory_go.Servers.Client.{
  Client, Env, official_catalog_url, new_client, list_servers, get_server,
}
use vintagestory_go.Servers.Client.Cache.{History, sources, IsProvided, list_servers-IsProvided}
use vintagestory_go.Servers.Client.Details.{IsAnswer, get_server-IsAnswer}
use vintagestory_go.Servers.Tests.{
  reading, addressing, site, parse_site, old_entry, old_server, detail_page, detail_server,
}

-- A site whose pages are the catalog, and the one of a server.
abbrev env : Node → Env
env root = record {
  until = λ v. none;
  resolve = λ e. ok (site (text "/"));
  parse_html = λ b. decoded root;
  render = λ n. text "";
  parse_url = parse_site;
  resolve_text = λ base u. text "absolute";
}

abbrev answers : ℕ → Round
answers k = record {
  dice = 0;
  interrupt = none;
  reply = answered (record {
    status_code = 200;
    status = text "";
    content_type = text "";
    retry_after = text "";
    content = text "<html>";
    fault = nil;
  });
  ctx_err = nil;
}

-- What a call of the client computes with.
calling : Unit {0}
unfolding reading addressing do_request transport_error classify is has_fault backoff wrap64
    normalize read_body retryable_status status_error parse_retry_after outcome check_status legacy
    resolve resolve_urls new_client list_servers get_server is_idempotent
calling = tt

abbrev one_page : Node
one_page = old_entry (text "2 players") (text "one.test") (text "One")

abbrev one_server : List Server
one_server = old_server (text "One") (text "one.test") 2 ∷ []

abbrev asked_once : Client
asked_once = record new_client { servers = one_server; fetched_at = 7 }

list_run : list_servers (env one_page) new_client 5 7 answers ≡ some (asked_once, ok one_server)
unfolding calling
list_run = refl

-- A network that does not answer.
abbrev silent : ℕ → Round
silent k = record { dice = 0; interrupt = none; reply = failed nil; ctx_err = nil }

created_client : History (env one_page) new_client
unfolding new_client
created_client = History.created official_catalog_url

later_client : History (env one_page) asked_once
later_client = History.asked created_client 5 7 answers (ok one_server) list_run

list_again_run :
    list_servers (env one_page) asked_once 8 9 silent ≡ some (asked_once, ok one_server)
unfolding calling
list_again_run = refl

list_servers-IsProvided_example :
    IsProvided (env one_page) (sources (env one_page) later_client) asked_once 8 silent one_server
list_servers-IsProvided_example =
    list_servers-IsProvided (env one_page) asked_once 8 9 silent asked_once one_server later_client
      list_again_run

abbrev shown : Server
shown = record detail_server {
  url = text "absolute";
  mods = record { name = text "A mod"; version = text "1.2.3"; url = text "absolute" } ∷ [];
}

get_run : get_server (env detail_page) new_client (text "42") answers ≡ some (ok shown)
unfolding calling detail_page
get_run = refl

get_server-IsAnswer_example : IsAnswer (env detail_page) new_client (text "42") answers shown
get_server-IsAnswer_example =
    get_server-IsAnswer (env detail_page) new_client (text "42") answers shown get_run

-- A page without listings is an error, and keeps the client.
empty_run :
    (e : Error) × (list_servers (env (other_node nil)) new_client 5 7 answers
      ≡ some (new_client, err e))
    × (is e Sentinel.servers_invalid_catalog ≡ true)
unfolding calling as_api api_is Sentinel-discrete
empty_run = (_, refl, refl)
