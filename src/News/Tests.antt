-- ===== src/News/Tests.antt =====
-- Runs of package news: a feed with a repeated post, and one without a link.
use vintagestory_go.Base.{
  ℕ, ◌≡◌, refl, true, Option, none, some, List, [], ◌∷◌, ◌++◌, Text, text, eq_text,
}
use vintagestory_go.Base.Int.{pos, wrap64}
use vintagestory_go.Base.Strings.{
  trim_space, to_lower, trim_prefix, contains, has_prefix, has_suffix, equal_fold, fields, join,
  lt_text, is_digit, atoi,
}
use vintagestory_go.Base.Sort.{sort_stable}
use vintagestory_go.Vshttp.Errors.{Error, Fault, nil, fault, url_error, is, has_fault}
use vintagestory_go.Vshttp.Request.{Url, url_text}
use vintagestory_go.Vshttp.Retry.{normalize, backoff}
use vintagestory_go.Vshttp.Status.{
  classify, transport_error, retryable_status, status_error, parse_retry_after, check_status,
}
use vintagestory_go.Vshttp.Do.{Round, answered, failed, do_request, read_body, is_idempotent}
use vintagestory_go.Vshttp.Json.{decoded, ok, outcome}
use vintagestory_go.Base.Urls.{hostname}
use vintagestory_go.News.Types.{Category, Item, RssItem, text_token, start_tag, end_tag, Readers}
use vintagestory_go.News.Wording.{truncate, category_of}
use vintagestory_go.News.Parser.{
  is_newer, canonical_article_url, canonical_image_url, is_official_article_url, scan_token,
  parse_description, normalize_item, collect, parse,
}
use vintagestory_go.News.Parser.Feed.{IsFeed}
use vintagestory_go.News.Client.{Env, legacy, fetch, new_client, list_news}
use vintagestory_go.News.Client.Laws.{IsSource, list_news-IsFeed}
use vintagestory_go.News.Redirects.{check_redirect, Hop, moved, Landing, stopped, follow}
use vintagestory_go.News.Redirects.Trust.{IsTrustedEnd, follow-IsTrustedEnd}

-- What the parser computes with.
parsing : Unit {0}
unfolding trim_space to_lower trim_prefix contains has_prefix has_suffix equal_fold fields join
    lt_text is_digit sort_stable url_text hostname truncate category_of is_newer
    canonical_article_url canonical_image_url is_official_article_url scan_token parse_description
    normalize_item collect parse eq_text
parsing = tt

cut_short : truncate (text "one two") 4 ≡ text "one" ++ 226 ∷ 128 ∷ 166 ∷ []
unfolding parsing
cut_short = refl

release_post : category_of (text "v1.20.7 - Stable") ≡ Category.release
unfolding parsing
release_post = refl

abbrev post : Text → Text → RssItem
post title link = record {
  title = title;
  link = link;
  description = text "";
  published_at = text "date";
}

abbrev article : Text → Url
article path = record {
  scheme = text "https";
  user = none;
  host = text "WWW.vintagestory.at:443";
  path = text "/blog.html/news/" ++ path;
  raw_query = text "";
  fragment = text "";
}

abbrev parse_article : Text → Option Url
parse_article value = some (article value)

abbrev readers : Readers
readers = record {
  parse_feed = λ b. decoded (
      post (text "v1.20.7") (text "b")
      ∷ post (text "Again") (text "b")
      ∷ post (text " ") (text "c")
      ∷ post (text "A talk") (text "a")
      ∷ []);
  parse_time = λ l v. some (pos 5);
  parse_url = parse_article;
  tokens =
      λ v. (start_tag (text "p") [] ∷ text_token (text "Hello ") ∷ end_tag (text "p") ∷ [], true);
}

abbrev item : Text → Text → Category → Item
item title path category = record {
  id = text "https://www.vintagestory.at/blog.html/news/" ++ path;
  title = title;
  url = text "https://www.vintagestory.at/blog.html/news/" ++ path;
  summary = text "Hello";
  image_url = text "";
  published_at = pos 5;
  category = category;
}

abbrev items : List Item
items =
    item (text "A talk") (text "a") Category.news
    ∷ item (text "v1.20.7") (text "b") Category.release
    ∷ []

two_posts : parse readers (text "<rss/>") ≡ ok items
unfolding parsing
two_posts = refl

abbrev env : Env
env = record { until = λ v. none; resolve = λ e. ok (article (text "rss")); readers = readers }

abbrev answers : ℕ → Round
answers k = record {
  dice = 0;
  interrupt = none;
  reply = answered (record {
    status_code = 200;
    status = text "";
    content_type = text "";
    retry_after = text "";
    content = text "<rss/>";
    fault = nil;
  });
  ctx_err = nil;
}

abbrev resets : ℕ → Round
resets k = record {
  dice = 10;
  interrupt = none;
  reply = failed (url_error (text "Get: ") (fault Fault.other (text "connection reset")));
  ctx_err = nil;
}

-- What a call of List computes with.
calling : Unit {0}
unfolding parsing do_request transport_error classify is has_fault backoff wrap64 normalize
    read_body retryable_status status_error parse_retry_after atoi outcome check_status legacy fetch
    new_client list_news is_idempotent
calling = tt

-- The primary feed fails, the fallback answers.
fallback_run : list_news env new_client resets nil answers ≡ some (ok items)
unfolding calling
fallback_run = refl

list_news-IsFeed_example : IsFeed readers items × IsSource env new_client resets nil answers items
list_news-IsFeed_example = list_news-IsFeed env new_client resets nil answers items fallback_run

-- A site that redirects for ever, and one that redirects to another host.
abbrev looping : Url → Hop
looping u = moved (article (text "b"))

abbrev leaving : Url → Hop
leaving u = moved (record (article (text "b")) { host = text "example.com" })

redirect_refusal : Error
redirect_refusal = fault Fault.other (text "official news redirected to an untrusted URL")

looped : follow check_redirect looping 5 0 (article (text "a")) ≡ some (stopped redirect_refusal 5)
unfolding follow check_redirect redirect_refusal
looped = refl

left_site :
    follow check_redirect leaving 5 0 (article (text "a")) ≡ some (stopped redirect_refusal 1)
unfolding follow check_redirect redirect_refusal
left_site = refl

follow-IsTrustedEnd_example :
    (l : Landing) × (follow check_redirect looping 5 0 (article (text "a")) ≡ some l)
    × IsTrustedEnd (article (text "a")) looping l
follow-IsTrustedEnd_example = follow-IsTrustedEnd (article (text "a")) looping
