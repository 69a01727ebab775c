-- ===== src/Vshttp/Do.antt =====
-- vshttp/do.go: Do, readBody, sleep and retryAfterOf. The network, the context and the random
-- numbers are a `Round` for each attempt; a run returns what Do returns, with the number of requests
-- sent and the delays slept.
pub mod Laws
pub mod Loop
pub mod Delays
pub mod Promises
pub mod Panics
pub mod Once
use vintagestory_go.Base.{
  ℕ, zero, suc, ◌+◌, Bool, true, false, ◌&&◌, ◌||◌, not, Option, none, some, List, [], ◌∷◌, ◌++◌,
  Text, text, leb, ltb, length, take, if◌then◌else◌,
}
use vintagestory_go.Base.Int.{ℤ, pos, max_int64}
use vintagestory_go.Base.Strings.{itoa}
use vintagestory_go.Vshttp.Errors.{Kind, ApiInfo, other, Error, nil, fault, api, is_nil, as_api}
use vintagestory_go.Vshttp.Request.{Request, Response, get, head, post}
use vintagestory_go.Vshttp.Retry.{RetryPolicy, Limits, normalize, backoff}
use vintagestory_go.Vshttp.Status.{
  request_info, response_info, transport_error, retryable_status, status_error,
}

-- What client.Do(req) returns.
pub data Reply : Type 0 where
  failed : Error → Reply
  answered : Response → Reply

-- What one attempt meets: the random number for its delay, the error of the context if that ended
-- the delay, the reply, and ctx.Err() after it.
pub record Round : Type 0 where
  pub dice : ℕ
  pub interrupt : Option Error
  pub reply : Reply
  pub ctx_err : Error

-- readBody; the limit is an int64 that is not negative.
pub data Body : Type 0 where
  body : Text → Body
  refused : ApiInfo → Error → Body

read : Text → Request → Response → ℕ → Text → Error → Body
unfolding itoa
read op req resp max bytes err =
    if not (is_nil err)
    then refused
        (record (response_info op req resp Kind.body_read true) {
          body_size = length bytes;
          limit = max;
        })
        err
    else if ltb max (length bytes)
    then refused
        (record (response_info op req resp Kind.response_too_large false) {
          body_size = length bytes;
          limit = max;
        })
        (fault other (text "response exceeds limit of " ++ itoa max ++ text " bytes"))
    else body bytes

-- maxBody+1 in an int64: past the largest one it is negative, and the reader ends at once.
abbrev pub read_limit : ℕ → ℕ
read_limit max = if ltb max max_int64 then suc max else 0

-- io.ReadAll(io.LimitReader(resp.Body, maxBody+1)) meets the fault of the stream only if the limit
-- does not end it first.
unfoldable pub read_body : Text → Request → Response → ℕ → Body
unfolding read
read_body op req resp max =
    read op req resp max (take (read_limit max) resp.content)
      (if ltb (length resp.content) (read_limit max) then resp.fault else nil)

-- One attempt ends the call, or leaves an error and goes on.
pub data Next : Type 0 where
  stop : Option (Response × Text) → Error → Next
  again : ApiInfo → Error → Next

settle : Error → ApiInfo × Error → Next
settle ctx_err (i, e) =
    if not (is_nil ctx_err) || not i.retryable then stop none (api i e) else again i e

module _ (until : Text → Option ℤ) (op : Text) (req : Request) (max : ℕ) where
  deliver : (more : Bool) → Error → Response → Body → Next
  deliver more ctx_err resp (refused i e) = settle ctx_err (i, e)
  deliver more ctx_err resp (body b) =
      if retryable_status resp.status_code && more
      then (let (i, e) = status_error until op req resp in again i e)
      else stop (some (resp, b)) nil

  -- The loop's body from client.Do on; `more` is attempt+1 < attempts.
  unfoldable pub exchange : (more : Bool) → Error → Reply → Next
  unfolding settle deliver
  exchange more ctx_err (failed err) = settle ctx_err (transport_error op req err)
  exchange more ctx_err (answered resp) = deliver more ctx_err resp (read_body op req resp max)

-- retryAfterOf
retry_after_from : Option (ApiInfo × Error) → ℤ
retry_after_from none = pos 0
retry_after_from (some (i, _)) = i.retry_after

unfoldable pub retry_after_of : Error → ℤ
unfolding retry_after_from
retry_after_of err = retry_after_from (as_api err)

-- The delay before an attempt: none before the first; `crash` is the panic of backoff.
pub data Pause : Type 0 where
  ready : List ℤ → Pause
  cut : ℤ → Error → Pause
  crash : Pause

sleep : Option ℤ → Option Error → Pause
sleep none interrupt = crash
sleep (some d) none = ready (d ∷ [])
sleep (some d) (some e) = cut d e

pub pause : Limits → ℕ → Error → Round → Pause
unfolding sleep
pause p zero last r = ready []
pause p (suc attempt) last r = sleep (backoff p attempt (retry_after_of last) r.dice) r.interrupt

pub data Run : Type 0 where
  panicked : (sent : ℕ) → Run
  returned : Option (Response × Text) → Error → (sent : ℕ) → (slept : List ℤ) → Run

module _ (until : Text → Option ℤ) (p : Limits) (op : Text) (req : Request) (max : ℕ)
    (rounds : ℕ → Round) where
  -- `for attempt := ...` with `left` attempts left; `last` is lastErr.
  pub loop : (left attempt : ℕ) → Error → List ℤ → Run
  unfolding exchange pause
  loop zero attempt last slept = returned none last attempt slept
  loop (suc left) attempt last slept = elim (pause p attempt last (rounds attempt)) [
    | crash ↦ panicked attempt
    | cut d e ↦
        returned none (api (request_info op req Kind.canceled false) e) attempt (slept ++ d ∷ [])
    | ready ds ↦
        elim (exchange until op req max (ltb 0 left) (rounds attempt).ctx_err
          (rounds attempt).reply) [
            | stop r err ↦ returned r err (suc attempt) (slept ++ ds)
            | again i e ↦ loop left (suc attempt) (api i e) (slept ++ ds)
          ]
  ]

unfoldable pub is_idempotent : Request → Bool
is_idempotent req = elim req.method [
  | get ↦ not req.has_body
  | head ↦ not req.has_body
  | post ↦ false
]

unfoldable pub attempts : RetryPolicy → Request → ℕ
unfolding normalize is_idempotent
attempts policy req = if is_idempotent req then (normalize policy).max_attempts else 1

-- func Do
unfoldable pub do_request : (Text → Option ℤ) → RetryPolicy → Text → Request → ℕ → (ℕ → Round) → Run
unfolding loop attempts
do_request until policy op req max rounds =
    loop until (normalize policy) op req max rounds (attempts policy req) 0 nil []
