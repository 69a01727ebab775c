-- ===== src/Vshttp/Do/Promises.antt =====
-- vshttp/do.go: what Do promises its callers.
use native.Mathlib.Nat.{zero-add}
use vintagestory_go.Base.{
  ℕ, zero, suc, ◌*◌, ◌≤◌, ◌<◌, ◌≡◌, refl, ◌⊎◌, false, Option, none, [], Text, arith,
}
use vintagestory_go.Base.Int.{ℤ, pos, pos_part, ◌≤ℤ◌}
use vintagestory_go.Vshttp.Errors.{Error, nil, api}
use vintagestory_go.Vshttp.Request.{Request, Response}
use vintagestory_go.Vshttp.Retry.{RetryPolicy, normalize}
use vintagestory_go.Vshttp.Retry.Bounds.{most_delay, backoff-le}
use vintagestory_go.Vshttp.Do.{
  Round, Next, again, exchange, cut, crash, pause, returned, loop, attempts, is_idempotent,
  do_request,
}
use vintagestory_go.Vshttp.Do.Loop.{sent, loop-sent, loop-cases, Outcome, loop-Outcome}
use vintagestory_go.Vshttp.Do.Delays.{Paced, loop-Paced}

normalize_pos : (policy : RetryPolicy) → 0 < (normalize policy).max_attempts
unfolding normalize
normalize_pos policy = ground arith

attempts_pos : (policy : RetryPolicy) (req : Request) → 0 < attempts policy req
unfolding attempts
attempts_pos policy req = ground (arith, normalize_pos policy)

pub attempts_once :
    (policy : RetryPolicy) (req : Request) → is_idempotent req ≡ false → attempts policy req ≡ 1
unfolding attempts
attempts_once policy req h = rw h

module _ (until : Text → Option ℤ) (policy : RetryPolicy) (op : Text) (req : Request) (max : ℕ)
    (rounds : ℕ → Round) where
  first-sent :
      (left : ℕ) → 1 ≤ sent (loop until (normalize policy) op req max rounds (suc left) 0 nil [])
  unfolding pause
  first-sent left =
      loop-cases until (normalize policy) op req max rounds (λ r. 1 ≤ sent r) left 0 nil []
        (λ st. absurd (never st)) (λ d e st. absurd (never_cut d e st)) (λ ds r e _ _. omega arith)
        (λ ds i c _ _. (loop-sent until (normalize policy) op req max rounds left 1 (api i c) _).0)
    where
      never : pause (normalize policy) 0 nil (rounds 0) ≡ crash → ⊥
      never st = cc

      never_cut : (d : ℤ) (e : Error) → pause (normalize policy) 0 nil (rounds 0) ≡ cut d e → ⊥
      never_cut d e st = cc

  -- Whatever the policy, the network and the context do, Do sends at least one request and at most as
  -- many as the policy's attempts, of which there is one for a request that is not idempotent.
  pub do_request-sent :
      (1 ≤ sent (do_request until policy op req max rounds))
      × (sent (do_request until policy op req max rounds) ≤ attempts policy req)
  unfolding do_request
  do_request-sent = (
    many (attempts policy req) (attempts_pos policy req),
    rw zero-add at
        ((loop-sent until (normalize policy) op req max rounds (attempts policy req) 0 nil []).1),
  )
    where
      many : (n : ℕ) → 0 < n → 1 ≤ sent (loop until (normalize policy) op req max rounds n 0 nil [])
      many zero h = elim h [ ]
      many (suc n) h = first-sent n

  -- What Do returns, if backoff does not panic. Either a response and no error: the response is the
  -- reply to the last request sent, its body is within the limit, and was read to its end without a
  -- fault, or is empty if the limit is the largest int64; and its status is not one to retry unless
  -- all attempts were used. Or no response and an
  -- APIError, and then all attempts were used, or the last failure is not retryable, or the context
  -- ended after the last reply or during a delay.
  pub do_request-Outcome :
      Outcome until
        (normalize policy)
        op
        req
        max
        rounds
        (attempts policy req)
        (do_request until policy op req max rounds)
  unfolding do_request
  do_request-Outcome =
      loop-Outcome until (normalize policy) op req max rounds (attempts policy req) 0
        (attempts policy req) nil [] (omega arith)
        (λ z. absurd (omega (arith, z, attempts_pos policy req)))

  -- If the policy's largest delay is at most 4 * 10^18 nanoseconds (126 years), every delay of a run is not negative, and
  -- below 5/4 of the policy's largest delay or at most its largest wait for a hint; there are fewer
  -- delays than attempts.
  pub do_request-Paced :
      (normalize policy).max_delay ≤ most_delay
      → Paced
          (λ d.
            (pos 0 ≤ℤ d)
            × ((4 * pos_part d < 5 * (normalize policy).max_delay)
                ⊎ (d ≤ℤ pos (normalize policy).max_wait)))
          (attempts policy req)
          (do_request until policy op req max rounds)
  unfolding do_request
  do_request-Paced small = rw zero-add at (
      loop-Paced until (normalize policy) op req max rounds _
        (λ a dice hint d e. backoff-le (normalize policy) a dice hint d small e)
        (attempts policy req) 0 nil [] tt (omega arith))

  -- A request that is not idempotent is sent once, with no delay, and Do does not panic.
  pub do_request_once :
      is_idempotent req ≡ false
      → (r : Option (Response × Text)) × (e : Error) × (do_request until policy op req max rounds
          ≡ returned r e 1 [])
  unfolding do_request loop pause
  do_request_once h =
      rw (attempts_once policy req h)
        (split (exchange until op req max false (rounds 0).ctx_err (rounds 0).reply) refl)
    where
      split :
          (n : Next)
          → exchange until op req max false (rounds 0).ctx_err (rounds 0).reply ≡ n
          → (r : Option (Response × Text)) × (e : Error) × (loop until
                (normalize policy)
                op
                req
                max
                rounds
                1
                0
                nil
                []
              ≡ returned r e 1 [])
      split (Next.stop r e) k = (r, e, rw (k, loop))
      split (again i c) k = (none, api i c, rw (k, loop))
