-- ===== src/Moddb/Tests.antt =====
-- Runs of package moddb: a catalog of three mods, of which one is not a mod.
mod Searches
mod Concurrent
use vintagestory_go.Base.{
  ℕ, ◌-◌, ◌≡◌, inr, refl, none, some, List, [], ◌∷◌, length, Text, text, eq_text, arith,
}
use vintagestory_go.Base.Int.{ℤ, pos, wrap64}
use vintagestory_go.Base.Strings.{
  trim_space, to_lower, contains, has_prefix, join, lt_text, format_int, atoi, split, trim_suffix,
  trim_prefix, is_digit,
}
use vintagestory_go.Base.Sort.{sort_stable}
use vintagestory_go.Vshttp.Errors.{nil, Fault, fault, is, has_fault, url_error}
use vintagestory_go.Vshttp.Request.{Url}
use vintagestory_go.Vshttp.Retry.{default_retry_policy, normalize, backoff}
use vintagestory_go.Vshttp.Status.{
  classify, transport_error, retryable_status, status_error, parse_retry_after, check_status,
}
use vintagestory_go.Vshttp.Do.{Round, failed, answered, do_request, read_body}
use vintagestory_go.Vshttp.Json.{decoded, ok, decode_json, fetch_json}
use vintagestory_go.Moddb.Types.{Mod, ModDetails, ApiSummary, ModsResponse, ModResponse}
use vintagestory_go.Moddb.Errors.{legacy, api_status_error}
use vintagestory_go.Moddb.Mapping.{
  Readers, normalize_side, non_empty, release_type, parse_date, parse_screenshot, mod_of, mods_of,
  map_details,
}
use vintagestory_go.Moddb.GameVersion.{game_version_param, is_major_minor, is_exact}
use vintagestory_go.Moddb.Search.{
  matches_text, contains_all_fold, passes, date_after, comes_first, found, page_of, size_of,
  page_from, search_page,
}
use vintagestory_go.Moddb.Client.{
  find, Client, Env, fall_back, fetch_mods, list, list_for_game_version, get_json,
}
use vintagestory_go.Moddb.Client.Details.{keep_details, fetch_details, get_mod}
use vintagestory_go.Moddb.Client.Stale.{IsReply, list-IsReply}
use vintagestory_go.Moddb.Client.Details.Aliases.{IsMissed, get_mod-get_mod}
use vintagestory_go.Moddb.Answer.{param_of, enrich_page, catalog_for, search}

-- What the mapping and the search compute with.
mapping : Unit {0}
unfolding normalize_side non_empty release_type parse_date parse_screenshot mods_of map_details
    trim_space to_lower contains has_prefix join lt_text format_int eq_text sort_stable matches_text
    contains_all_fold passes comes_first date_after found page_of size_of page_from search_page
    wrap64
mapping = tt

abbrev summary : ℤ → Text → Text → Text → ApiSummary
summary id name type tag = record {
  mod_id = id;
  downloads = id;
  name = name;
  summary = text "";
  author = text "ann";
  side = text "Both";
  type = type;
  last_released = text "";
  mod_id_strings = text "slug" ∷ [];
  url_alias = none;
  logo = none;
  tags = tag ∷ text "Library" ∷ [];
}

abbrev response : ModsResponse
response = record {
  status_code = text "200";
  mods =
      summary (pos 7) (text "Carts") (text "mod") (text "Craft")
      ∷ summary (pos 8) (text "Tool") (text "externaltool") (text "Craft")
      ∷ summary (pos 9) (text "Ants") (text "mod") (text "library")
      ∷ [];
}

abbrev carts_reply : ModResponse
carts_reply = record {
  status_code = text "200";
  mod_detail = record {
    mod_id = pos 7;
    name = text "Carts";
    text = text "";
    author = text "ann";
    url_alias = text "carts";
    logo = text "";
    homepage_url = text "";
    source_code_url = text "";
    downloads = pos 7;
    side = text "both";
    created = text "";
    last_released = text "";
    tags = [];
    releases =
        record {
          release_id = pos 1;
          main_file = text "";
          filename = text "";
          tags = text "1.20.7" ∷ text "1.19.8" ∷ [];
          mod_version = text "2.0.0-rc.1";
          created = text "";
          changelog = text "";
        }
        ∷ [];
    screenshots = [];
  };
}

abbrev readers : Readers
readers = record { parse_time = λ l v. none; as_string = λ v. none; as_object = λ v. none }

abbrev api_url : Url
api_url = record {
  scheme = text "https";
  user = none;
  host = text "mods.example";
  path = text "/api";
  raw_query = text "";
  fragment = text "";
}

abbrev env : Env
env = record {
  until = λ v. none;
  unmarshal_mods = λ b. decoded response;
  unmarshal_mod = λ b. decoded carts_reply;
  resolve = λ e. ok api_url;
  path_escape = λ p. p;
  readers = readers;
}

abbrev answers : ℕ → Round
answers k = record {
  dice = 0;
  interrupt = none;
  reply = answered (record {
    status_code = 200;
    status = text "";
    content_type = text "";
    retry_after = text "";
    content = text "{}";
    fault = nil;
  });
  ctx_err = nil;
}

abbrev empty : Client
empty = record {
  base_url = text "https://mods.example/api";
  retry = default_retry_policy;
  catalog = [];
  catalog_at = 0;
  catalog_by_gv = [];
  details = [];
}

-- What the calls compute with.
calling : Unit {0}
unfolding mapping do_request transport_error classify is has_fault backoff normalize read_body
    retryable_status status_error parse_retry_after atoi fetch_json check_status decode_json legacy
    api_status_error fall_back get_json fetch_mods list list_for_game_version keep_details
    fetch_details get_mod game_version_param split trim_suffix trim_prefix is_digit is_major_minor
    is_exact param_of enrich_page catalog_for search
calling = tt

abbrev mods : List Mod
mods = mods_of readers response.mods

two_mods : length mods ≡ 2
unfolding mapping
two_mods = refl

listed_run :
    list env empty 0 10 none answers
    ≡ some (record empty { catalog = mods; catalog_at = 10 }, (mods, nil))
unfolding calling
listed_run = refl

list-IsReply_example :
    IsReply env empty 0 10 answers (record empty { catalog = mods; catalog_at = 10 }) (mods, nil)
list-IsReply_example =
    list-IsReply env empty 0 10 answers (record empty { catalog = mods; catalog_at = 10 })
      (mods, nil) listed_run

abbrev carts : Mod
carts = mod_of readers (summary (pos 7) (text "Carts") (text "mod") (text "Craft"))

abbrev details : ModDetails
details = map_details readers carts_reply.mod_detail

abbrev informed : Client
informed = keep_details env empty (text "7") details 10

got : get_mod env empty (text " 7 ") 0 10 none answers ≡ some (informed, ok details)
unfolding calling
got = refl

abbrev resets : ℕ → Round
resets k = record {
  dice = 10;
  interrupt = none;
  reply = failed (url_error (text "Get: ") (fault Fault.other (text "connection reset")));
  ctx_err = nil;
}

-- Thirty minutes later the entry is expired, and fetched again.
abbrev renewed : Client
renewed = keep_details env informed (text "7") details 1_800_000_000_020

got_again :
    get_mod env informed (text "7") 1_800_000_000_010 1_800_000_000_020 none answers
    ≡ some (renewed, ok details)
unfolding calling
got_again = refl

expired : IsMissed 1_800_000_000_010 (find (trim_space (text "7")) informed.details)
unfolding trim_space keep_details map_details eq_text format_int
expired = omega arith

get_mod-get_mod_example :
    get_mod env renewed (text "carts") 1_800_000_001_000 1_800_000_001_000 none resets
    ≡ some (renewed, ok details)
unfolding trim_space map_details
get_mod-get_mod_example =
    get_mod-get_mod env informed (text "7") 1_800_000_000_010 1_800_000_000_020 answers renewed
      details refl expired got_again (text "carts") 1_800_000_001_000 1_800_000_001_000 none resets
      (inr (inr refl)) refl refl (omega arith)
