-- ===== src/Vshttp/Json/Laws.antt =====
-- vshttp/do.go FetchJSON: what a decoded value rests on.
use vintagestory_go.Base.{
  ℕ, ◌≤◌, ◌<◌, ◌≡◌, refl, inl, inr, Bool-cases, true, false, [], Option, none, some, Text, arith,
  length, is_empty,
}
use vintagestory_go.Base.Int.{ℤ}
use vintagestory_go.Base.Strings.{trim_space}
use vintagestory_go.Vshttp.Errors.{Error, nil, api, is_nil}
use vintagestory_go.Vshttp.Request.{Request, Response}
use vintagestory_go.Vshttp.Retry.{RetryPolicy, normalize}
use vintagestory_go.Vshttp.Status.{check_status}
use vintagestory_go.Vshttp.Status.Laws.{check_status_iff}
use vintagestory_go.Vshttp.Do.{answered, Round, Run, panicked, returned, attempts, do_request}
use vintagestory_go.Vshttp.Do.Laws.{IsRead}
use vintagestory_go.Vshttp.Do.Loop.{Outcome}
use vintagestory_go.Vshttp.Do.Promises.{do_request-Outcome}
use vintagestory_go.Vshttp.Json.{
  Decoded, decoded, undecoded, Result, ok, err, decode_json, decode_result, checked,
  check_and_decode, outcome, fetch_json,
}

module _ {A : Type 0} (until : Text → Option ℤ) (unmarshal : Text → Decoded A) (op : Text)
    (req : Request) where
  decode_json-ok :
      (resp : Response) (content : Text) (a : A)
      → decode_json unmarshal op req resp content ≡ ok a
      → (unmarshal content ≡ decoded a) × (is_empty (trim_space content) ≡ false)
  unfolding decode_json
  decode_json-ok resp content a h = go (unmarshal content) refl
    where
      go :
          (d : Decoded A)
          → unmarshal content ≡ d
          → (unmarshal content ≡ decoded a) × (is_empty (trim_space content) ≡ false)
      go (decoded x) e = let k = rw e at h in (ground (arith, e, k), ground (arith, k))
      go (undecoded x) e = let k = rw e at h in absurd (ground (arith, k))

  -- What a decoded value rests on: a reply of the run, with a 2xx status and a body within the limit
  -- that is not blank and that the decoder took for the value.
  pub record IsFetched (max : ℕ) (rounds : ℕ → Round) (a : A) : Type 0 where
    pub round : ℕ
    pub resp : Response
    pub replied : (rounds round).reply ≡ answered resp
    pub accepted : (200 ≤ resp.status_code) × (resp.status_code < 300)
    pub fits : length resp.content ≤ max
    pub sound : resp.fault ≡ nil
    pub present : is_empty (trim_space resp.content) ≡ false
    pub value : unmarshal resp.content ≡ decoded a

  blank : (b : Text) → b ≡ [] → is_empty (trim_space b) ≡ true
  unfolding trim_space
  blank b e = rw e refl

  read-whole :
      (max : ℕ) (resp : Response) (b : Text)
      → IsRead max resp b
      → is_empty (trim_space b) ≡ false
      → (b ≡ resp.content) × (resp.fault ≡ nil)
  read-whole max resp b (inl w) p = w
  read-whole max resp b (inr (k, e)) p = absurd (ground (arith, p, blank b e))

  checked-ok :
      (resp : Response) (content : Text) (a : A) (e : Error)
      → checked until unmarshal op req resp content e ≡ ok a
      → (e ≡ nil) × (decode_json unmarshal op req resp content ≡ ok a)
  unfolding checked
  checked-ok resp content a nil h = (refl, h)
  checked-ok resp content a _ h = cc

  run-IsFetched :
      (policy : RetryPolicy) (max total : ℕ) (rounds : ℕ → Round) (a : A) (run : Run)
      → Outcome until (normalize policy) op req max rounds total run
      → (r : Result (Response × Text)) → outcome run ≡ some r
      → check_and_decode until unmarshal op req r ≡ ok a
      → IsFetched max rounds a
  unfolding outcome check_and_decode
  run-IsFetched policy max total rounds a (panicked n) o r h k = cc
  run-IsFetched policy max total rounds a (returned none e n ds) o (ok r) h k =
      absurd (ground (arith, h))
  run-IsFetched policy max total rounds a (returned none e n ds) o (err e') h k = cc
  run-IsFetched policy max total rounds a (returned (some (resp, b)) e n ds) (none_left, (k, _, d))
        (err e') h eq =
      cc
  run-IsFetched policy max total rounds a (returned (some (resp, b)) e n ds) (none_left, (k, _, d))
        (ok (resp', b')) h eq =
      let same : resp ≡ resp' = ground (arith, h) in
      let same_b : b ≡ b' = ground (arith, h) in
      let (fine, decodes) = checked-ok resp' b' a (check_status until op req resp') eq in
      let (value, present) = decode_json-ok resp' b' a decodes in
      let (whole, sound) = read-whole max resp' b' (rw (← same, ← same_b) (d.complete)) present in
      record {
        round = k;
        resp = resp';
        replied = cc (d.replied, same);
        accepted = (check_status_iff until op req resp').0 fine;
        fits = rw (← whole, ← same_b) d.fits;
        sound = sound;
        present = rw (← whole) present;
        value = rw (← whole) value;
      }

  -- A value that FetchJSON decodes comes from one reply of the run that was accepted, complete and
  -- within the limit; no error status and no cut body is ever decoded.
  pub fetch_json-IsFetched :
      (policy : RetryPolicy) (max : ℕ) (rounds : ℕ → Round) (a : A)
      → fetch_json until unmarshal policy op req max rounds ≡ some (ok a)
      → IsFetched max rounds a
  unfolding fetch_json
  fetch_json-IsFetched policy max rounds a h =
      go (outcome (do_request until policy op req max rounds)) refl
    where
      go :
          (o : Option (Result (Response × Text)))
          → outcome (do_request until policy op req max rounds) ≡ o
          → IsFetched max rounds a
      go none e = absurd (ground (arith, rw (e, fetch_json) at h))
      go (some r) e =
          run-IsFetched policy max (attempts policy req) rounds a
            (do_request until policy op req max rounds)
            (do_request-Outcome until policy op req max rounds) r e
            (ground (arith, rw (e, fetch_json) at h))

  decode_json-err :
      (resp : Response) (content : Text) (e : Error)
      → decode_json unmarshal op req resp content ≡ err e
      → is_nil e ≡ false
  unfolding decode_json decode_result
  decode_json-err resp content e h = elim (Bool-cases (is_empty (trim_space content))) [
    | inl k ↦ ground (arith, rw k at h)
    | inr k ↦ go (unmarshal content) (rw k at h)
  ]
    where
      go : (d : Decoded A) → decode_result op req resp content d ≡ err e → is_nil e ≡ false
      go (decoded x) k = absurd (ground (arith, k))
      go (undecoded x) k = ground (arith, k)

  checked-err :
      (resp : Response) (content : Text) (s e : Error)
      → checked until unmarshal op req resp content s ≡ err e
      → is_nil e ≡ false
  unfolding checked
  checked-err resp content nil e h = decode_json-err resp content e h
  checked-err resp content (Error.sentinel s) e h = ground (arith, h)
  checked-err resp content (Error.fault f m) e h = ground (arith, h)
  checked-err resp content (Error.wrapped m s) e h = ground (arith, h)
  checked-err resp content (Error.joined a m b) e h = ground (arith, h)
  checked-err resp content (Error.url_error m s) e h = ground (arith, h)
  checked-err resp content (api i s) e h = ground (arith, h)

  run-err :
      (policy : RetryPolicy) (max total : ℕ) (rounds : ℕ → Round) (e : Error) (run : Run)
      → Outcome until (normalize policy) op req max rounds total run
      → (r : Result (Response × Text)) → outcome run ≡ some r
      → check_and_decode until unmarshal op req r ≡ err e
      → is_nil e ≡ false
  unfolding outcome check_and_decode
  run-err policy max total rounds e (panicked n) o r h k = cc
  run-err policy max total rounds e (returned none x n ds) (i, c, same, _) (ok r) h k = cc
  run-err policy max total rounds e (returned none x n ds) (i, c, same, _) (err y) h k =
      ground (arith, same, h, k)
  run-err policy max total rounds e (returned (some r) x n ds) o (ok (resp, content)) h k =
      checked-err resp content (check_status until op req resp) e k
  run-err policy max total rounds e (returned (some r) x n ds) o (err y) h k = cc

  -- An error of FetchJSON is not nil.
  pub fetch_json-err :
      (policy : RetryPolicy) (max : ℕ) (rounds : ℕ → Round) (e : Error)
      → fetch_json until unmarshal policy op req max rounds ≡ some (err e)
      → is_nil e ≡ false
  unfolding fetch_json
  fetch_json-err policy max rounds e h =
      go (outcome (do_request until policy op req max rounds)) refl
    where
      go :
          (o : Option (Result (Response × Text)))
          → outcome (do_request until policy op req max rounds) ≡ o
          → is_nil e ≡ false
      go none k = absurd (ground (arith, rw (k, fetch_json) at h))
      go (some r) k =
          run-err policy max (attempts policy req) rounds e
            (do_request until policy op req max rounds)
            (do_request-Outcome until policy op req max rounds) r k
            (ground (arith, rw (k, fetch_json) at h))
