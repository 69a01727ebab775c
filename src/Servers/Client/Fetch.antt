-- ===== src/Servers/Client/Fetch.antt =====
-- servers/client.go fetchHTML: what a page rests on.
use vintagestory_go.Base.{
  ◌<◌, inl, inr, ℕ, ◌≤◌, ◌<◌, ◌≡◌, refl, Option, none, some, Text, length, arith,
}
use vintagestory_go.Vshttp.Errors.{Error, nil}
use vintagestory_go.Vshttp.Request.{Url, Request, Response}
use vintagestory_go.Vshttp.Retry.{RetryPolicy, normalize}
use vintagestory_go.Vshttp.Status.{check_status}
use vintagestory_go.Vshttp.Status.Laws.{check_status_iff}
use vintagestory_go.Vshttp.Do.{answered, Round, Run, panicked, returned, attempts, do_request}
use vintagestory_go.Base.Int.{max_int64}
use vintagestory_go.Vshttp.Do.Laws.{IsRead}
use vintagestory_go.Vshttp.Do.Loop.{Outcome}
use vintagestory_go.Vshttp.Do.Promises.{do_request-Outcome}
use vintagestory_go.Vshttp.Json.{Decoded, decoded, undecoded, Result, ok, err, outcome}
use vintagestory_go.Servers.Tree.{Node}
use vintagestory_go.Servers.Client.{
  Client, Env, max_response_bytes, request_to, page_or_error, checked_page, replied, fetch_html,
}

-- What a page rests on: a reply of the run, with a 2xx status and a body that came whole and within
-- the limit, which html.Parse reads as the page.
pub record IsFetchedPage (env : Env) (endpoint : Text) (rounds : ℕ → Round) (root : Node)
    : Type 0 where
  pub url : Url
  pub resolved : env.resolve endpoint ≡ ok url
  pub round : ℕ
  pub resp : Response
  pub replied : (rounds round).reply ≡ answered resp
  pub accepted : (200 ≤ resp.status_code) × (resp.status_code < 300)
  pub fits : length resp.content ≤ max_response_bytes
  pub sound : resp.fault ≡ nil
  pub value : env.parse_html resp.content ≡ decoded root

-- The reply that Do returned.
record IsReply (max : ℕ) (rounds : ℕ → Round) (resp : Response) (content : Text) : Type 0 where
  pub round : ℕ
  pub replied : (rounds round).reply ≡ answered resp
  pub whole : content ≡ resp.content
  pub fits : length resp.content ≤ max
  pub sound : resp.fault ≡ nil

module _ (env : Env) where
  all-read :
      (max : ℕ) (resp : Response) (b : Text)
      → max < max_int64
      → IsRead max resp b
      → (b ≡ resp.content) × (resp.fault ≡ nil)
  all-read max resp b small (inl w) = w
  all-read max resp b small (inr (k, e)) = absurd (omega (arith, small, k))

  run-IsReply :
      (policy : RetryPolicy) (op : Text) (req : Request) (max total : ℕ) (rounds : ℕ → Round)
      (resp : Response) (content : Text) (run : Run)
      → Outcome env.until (normalize policy) op req max rounds total run
      → max < max_int64
      → outcome run ≡ some (ok (resp, content))
      → IsReply max rounds resp content
  unfolding outcome
  run-IsReply policy op req max total rounds resp content (panicked n) o small h = cc
  run-IsReply policy op req max total rounds resp content (returned none e n ds) o small h =
      absurd (ground (arith, h))
  run-IsReply policy op req max total rounds resp content (returned (some (resp', b)) e n ds)
        (_, (k, _, d)) small h =
      let same : resp' ≡ resp = ground (arith, h) in
      let same_b : b ≡ content = ground (arith, h) in
      let (whole, sound) = all-read max resp' b small d.complete in
      record {
        round = k;
        replied = cc (d.replied, same);
        whole = cc (same_b, whole, same);
        fits = let e : b ≡ resp.content = cc (whole, same) in rw (← e) (d.fits);
        sound = rw (← same) sound;
      }

  do_request-IsReply :
      (policy : RetryPolicy) (op : Text) (req : Request) (max : ℕ) (rounds : ℕ → Round)
      (resp : Response) (content : Text)
      → max < max_int64
      → outcome (do_request env.until policy op req max rounds) ≡ some (ok (resp, content))
      → IsReply max rounds resp content
  do_request-IsReply policy op req max rounds resp content small h =
      run-IsReply policy op req max (attempts policy req) rounds resp content
        (do_request env.until policy op req max rounds)
        (do_request-Outcome env.until policy op req max rounds) small h

  page_or_error-ok :
      (op endpoint : Text) (resp : Response) (d : Decoded Node) (root : Node)
      → page_or_error op endpoint resp d ≡ ok root
      → d ≡ decoded root
  unfolding page_or_error
  page_or_error-ok op endpoint resp (decoded n) root h = ground (arith, h)
  page_or_error-ok op endpoint resp (undecoded e) root h = absurd (ground (arith, h))

  checked_page-ok :
      (op endpoint : Text) (resp : Response) (content : Text) (e : Error) (root : Node)
      → checked_page env op endpoint resp content e ≡ ok root
      → (e ≡ nil) × (env.parse_html content ≡ decoded root)
  unfolding checked_page
  checked_page-ok op endpoint resp content nil root h =
      (refl, page_or_error-ok op endpoint resp (env.parse_html content) root h)
  checked_page-ok op endpoint resp content _ root h = cc

  replied-ok :
      (op endpoint : Text) (u : Url) (policy : RetryPolicy) (rounds : ℕ → Round)
      (o : Option (Result (Response × Text))) (root : Node)
      → env.resolve endpoint ≡ ok u
      → outcome (do_request env.until policy op (request_to u) max_response_bytes rounds) ≡ o
      → replied env op endpoint (request_to u) o ≡ some (ok root)
      → IsFetchedPage env endpoint rounds root
  unfolding replied
  replied-ok op endpoint u policy rounds none root r e h = cc
  replied-ok op endpoint u policy rounds (some (err x)) root r e h = absurd (ground (arith, h))
  replied-ok op endpoint u policy rounds (some (ok (resp, content))) root r e h =
      let reply =
        do_request-IsReply policy op (request_to u) max_response_bytes rounds resp content
          (omega arith) e in
      let (fine, value) =
        checked_page-ok op endpoint resp content (check_status env.until op (request_to u) resp)
          root (ground (arith, h)) in
      record {
        url = u;
        resolved = r;
        round = reply.round;
        resp = resp;
        replied = reply.replied;
        accepted = (check_status_iff env.until op (request_to u) resp).0 fine;
        fits = reply.fits;
        sound = reply.sound;
        value = rw (← (reply.whole)) value;
      }

  pub fetch_html-IsFetchedPage :
      (c : Client) (endpoint op : Text) (rounds : ℕ → Round) (root : Node)
      → fetch_html env c endpoint op rounds ≡ some (ok root)
      → IsFetchedPage env endpoint rounds root
  unfolding fetch_html
  fetch_html-IsFetchedPage c endpoint op rounds root h = go (env.resolve endpoint) refl
    where
      go : (o : Result Url) → env.resolve endpoint ≡ o → IsFetchedPage env endpoint rounds root
      go (err e) k = absurd (ground (arith, rw (fetch_html, k) at h))
      go (ok u) k = replied-ok op endpoint u c.retry rounds _ root k refl (rw (fetch_html, k) at h)
