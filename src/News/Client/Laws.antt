-- ===== src/News/Client/Laws.antt =====
-- news/client.go List: where its items come from.
use vintagestory_go.Base.{
  ℕ, ◌≡◌, ◌⊎◌, inl, inr, refl, ◌∙◌, true, Option, none, some, List, Text, arith,
}
use vintagestory_go.Vshttp.Errors.{Error, nil, is_nil}
use vintagestory_go.Vshttp.Request.{Url, Request, Response}
use vintagestory_go.Vshttp.Do.{Round, do_request}
use vintagestory_go.Vshttp.Json.{Result, ok, err, outcome}
use vintagestory_go.Vshttp.Status.{check_status}
use vintagestory_go.News.Types.{Item}
use vintagestory_go.News.Parser.{parse}
use vintagestory_go.News.Parser.Feed.{IsFeed, parse-IsFeed}
use vintagestory_go.News.Client.{
  Client, Env, operation, max_response_bytes, request_to, feed_or_error, checked_feed, replied,
  fetch, second_try, first_try, list_news,
}

module _ (env : Env) where
  feed_or_error-IsFeed :
      (endpoint : Text) (resp : Response) (content : Text) (r : Result (List Item))
      (items : List Item)
      → parse env.readers content ≡ r
      → feed_or_error endpoint resp content r ≡ ok items
      → IsFeed env.readers items
  unfolding feed_or_error
  feed_or_error-IsFeed endpoint resp content (ok is) items p h =
      let same : is ≡ items = ground (arith, h) in
      rw (← same) (parse-IsFeed env.readers content is p)
  feed_or_error-IsFeed endpoint resp content (err e) items p h = absurd (ground (arith, h))

  checked_feed-IsFeed :
      (endpoint : Text) (resp : Response) (content : Text) (e : Error) (items : List Item)
      → checked_feed env endpoint resp content e ≡ ok items
      → IsFeed env.readers items
  unfolding checked_feed
  checked_feed-IsFeed endpoint resp content nil items h =
      feed_or_error-IsFeed endpoint resp content (parse env.readers content) items refl h
  checked_feed-IsFeed endpoint resp content _ items h = cc

  replied-IsFeed :
      (endpoint : Text) (req : Request) (o : Option (Result (Response × Text))) (items : List Item)
      → replied env endpoint req o ≡ some (ok items)
      → IsFeed env.readers items
  unfolding replied
  replied-IsFeed endpoint req none items h = cc
  replied-IsFeed endpoint req (some (err e)) items h = absurd (ground (arith, h))
  replied-IsFeed endpoint req (some (ok (resp, content))) items h =
      checked_feed-IsFeed endpoint resp content (check_status env.until operation req resp) items
        (ground (arith, h))

  fetch-IsFeed :
      (c : Client) (endpoint : Text) (rounds : ℕ → Round) (items : List Item)
      → fetch env c endpoint rounds ≡ some (ok items)
      → IsFeed env.readers items
  unfolding fetch
  fetch-IsFeed c endpoint rounds items h = go (env.resolve endpoint) refl
    where
      go : (o : Result Url) → env.resolve endpoint ≡ o → IsFeed env.readers items
      go (err e) k = absurd (ground (arith, rw (fetch, k) at h))
      go (ok u) k =
          replied-IsFeed endpoint (request_to u)
            (outcome
              (do_request env.until c.retry operation (request_to u) max_response_bytes rounds))
            items (rw (fetch, k) at h)

  -- The feed that the items of a result come from: the primary one, or the fallback if the primary
  -- failed before the context ended.
  abbrev pub IsSource : Client → (ℕ → Round) → Error → (ℕ → Round) → List Item → Type 0
  IsSource c first ctx_err second items =
      (fetch env c c.primary_url first ≡ some (ok items))
      ⊎ ((e : Error) × (fetch env c c.primary_url first ≡ some (err e))
          × (is_nil ctx_err ≡ true)
          × (fetch env c c.fallback_url second ≡ some (ok items)))

  second_try-ok :
      (e : Error) (o : Option (Result (List Item))) (items : List Item)
      → second_try env e o ≡ some (ok items)
      → o ≡ some (ok items)
  unfolding second_try
  second_try-ok e none items h = cc
  second_try-ok e (some (ok is)) items h = h
  second_try-ok e (some (err f)) items h = absurd (ground (arith, h))

  first_try-IsSource :
      (c : Client) (first : ℕ → Round) (ctx_err : Error) (second : ℕ → Round)
      (o : Option (Result (List Item))) (items : List Item)
      → fetch env c c.primary_url first ≡ o
      → first_try env c ctx_err second o ≡ some (ok items)
      → IsSource c first ctx_err second items
  unfolding first_try
  first_try-IsSource c first ctx_err second none items f h = cc
  first_try-IsSource c first ctx_err second (some (ok is)) items f h = inl (f ∙ h)
  first_try-IsSource c first ctx_err second (some (err e)) items f h =
      let going : is_nil ctx_err ≡ true = ground (arith, h) in
      inr (
        e,
        f,
        going,
        second_try-ok e (fetch env c c.fallback_url second) items (ground (arith, h, going)),
      )

  -- The items that List returns are a feed (at least one item, each of an official article, the newest
  -- first, no id twice), and they are those of the primary feed, or those of the fallback if the
  -- primary feed failed and the context had not ended.
  pub list_news-IsFeed :
      (c : Client) (first : ℕ → Round) (ctx_err : Error) (second : ℕ → Round) (items : List Item)
      → list_news env c first ctx_err second ≡ some (ok items)
      → IsFeed env.readers items × IsSource c first ctx_err second items
  unfolding list_news
  list_news-IsFeed c first ctx_err second items h =
      let source =
        first_try-IsSource c first ctx_err second (fetch env c c.primary_url first) items refl h in
      (
        elim source [
          | inl k ↦ fetch-IsFeed c c.primary_url first items k
          | inr (e, f, g, k) ↦ fetch-IsFeed c c.fallback_url second items k
        ],
        source,
      )
