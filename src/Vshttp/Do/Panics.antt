-- ===== src/Vshttp/Do/Panics.antt =====
-- vshttp/do.go: when the retry loop panics in backoff. The shift BaseDelay << attempt wraps around.
use native.Mathlib.Nat.{pow-suc, zero-add}
use vintagestory_go.Base.{
  ℕ, zero, suc, ◌+◌, ◌-◌, ◌*◌, ◌^◌, ◌≤◌, ◌<◌, ◌≡◌, ap, ◌≢◌, true, Option, none, List, [], ◌++◌,
  Text, arith, ltb,
}
use vintagestory_go.Base.Int.{ℤ, pos, ◌≤ℤ◌, ◌<ℤ◌, wrap64, wrap64-small, max_int64}
use vintagestory_go.Vshttp.Errors.{ApiInfo, Error, nil, api}
use vintagestory_go.Vshttp.Request.{Request, Response}
use vintagestory_go.Vshttp.Retry.{RetryPolicy, Limits, normalize, capped, backoff, milliseconds}
use vintagestory_go.Vshttp.Retry.Bounds.{backoff_panics_iff}
use vintagestory_go.Vshttp.Do.{
  Round, Next, again, exchange, sleep, Pause, pause, retry_after_of, panicked, attempts,
  is_idempotent, do_request,
}
use vintagestory_go.Vshttp.Do.Delays.{NoPanic, loop-NoPanic, pause-crash}
use vintagestory_go.Vshttp.Do.Loop.{run, next, loop-cases, pause-cut}

pow_mono : (a k : ℕ) → 2 ^ a ≤ 2 ^ (k + a)
pow_mono a zero = rw zero-add (omega arith)
pow_mono a (suc k) =
    let e : suc k + a ≡ suc (k + a) = omega arith in
    rw e (omega (arith, pow_mono a k, pow-suc 2 (k + a)))

shift_mono : (b a n : ℕ) → a ≤ n → b * 2 ^ a ≤ b * 2 ^ n
shift_mono b a n h =
    let e : (n - a) + a ≡ n = omega arith in grind (arith, rw e at (pow_mono a (n - a)))

capped-ge :
    (p : Limits) (a n : ℕ)
    → 2 ≤ p.base_delay
    → 2 ≤ p.max_delay
    → a ≤ n
    → p.base_delay * 2 ^ n ≤ max_int64
    → pos 2 ≤ℤ capped p a
unfolding capped
capped-ge p a n b m h fits =
    let up = shift_mono p.base_delay a n h in
    let low = shift_mono p.base_delay 0 a (omega arith) in
    rw (wrap64-small (p.base_delay * 2 ^ a) (omega arith)) (ground (arith, up, low))

module _ (until : Text → Option ℤ) (policy : RetryPolicy) (op : Text) (req : Request) (max : ℕ)
    (rounds : ℕ → Round) where
  attempts-le : attempts policy req ≤ (normalize policy).max_attempts
  unfolding attempts normalize
  attempts-le = ground arith

  -- Do does not panic under a policy whose delays are at least two nanoseconds and whose base delay,
  -- doubled once for each attempt, fits an int64.
  pub do_request-NoPanic :
      2 ≤ (normalize policy).base_delay
      → 2 ≤ (normalize policy).max_delay
      → (normalize policy).base_delay * 2 ^ (normalize policy).max_attempts ≤ max_int64
      → NoPanic (do_request until policy op req max rounds)
  unfolding do_request
  do_request-NoPanic b m fits =
      loop-NoPanic until (normalize policy) op req max rounds (attempts policy req)
        (attempts policy req) 0 nil [] (omega arith)
        λ a dice hint lt none_left.
          let small = (backoff_panics_iff (normalize policy) a dice hint).0 none_left in
          let large =
            capped-ge (normalize policy) a (normalize policy).max_attempts b m
              (omega (arith, lt, attempts-le)) fits in
          omega (arith, small, large)

-- Thirty-five doublings of the default base delay leave the range of int64.
abbrev pub default_base : ℕ
default_base = milliseconds 300

module _ (p : Limits) (base : p.base_delay ≡ default_base) (cap : 2 ≤ p.max_delay) where
  backoff_before : (a dice : ℕ) (hint : ℤ) → suc a < 36 → backoff p a hint dice ≢ none
  backoff_before a dice hint lt h =
      let small = (backoff_panics_iff p a dice hint).0 h in
      let large = capped-ge p a 34 (omega arith) cap (omega arith) (rw base (omega arith)) in
      omega (arith, small, large)

  capped_wrapped : capped p 35 <ℤ pos 2
  unfolding capped wrap64
  capped_wrapped = rw base (ground arith)

  pause_crashes :
      (attempt : ℕ) (last : Error) (r : Round) → attempt ≡ 36 → pause p attempt last r ≡ Pause.crash
  unfolding pause sleep
  pause_crashes attempt last r e =
      rw e (rw ((backoff_panics_iff p 35 r.dice (retry_after_of last)).1 capped_wrapped))

  module _ (until : Text → Option ℤ) (op : Text) (req : Request) (max : ℕ) (rounds : ℕ → Round)
      (quiet : (k : ℕ) → (rounds k).interrupt ≡ none)
      (fails : (k : ℕ)
        → (i : ApiInfo) × (c : Error) × (exchange until op req max true
              (rounds k).ctx_err
              (rounds k).reply
            ≡ again i c)) where
    not-cut :
        (attempt : ℕ) (last : Error) (d : ℤ) (e : Error)
        → pause p attempt last (rounds attempt) ≡ Pause.cut d e
        → ⊥
    not-cut attempt last d e st =
        cc (pause-cut until p op req max rounds attempt last d e st, quiet attempt)

    not-stop :
        (left attempt : ℕ) (r : Option (Response × Text)) (e : Error)
        → 0 < left
        → next until p op req max rounds left attempt ≡ Next.stop r e
        → ⊥
    not-stop left attempt r e h k =
        let (i, c, f) = fails attempt in
        let more : ltb 0 left ≡ true = ground arith in cc (rw more at k, f)

    climb :
        (j left attempt : ℕ) (last : Error) (slept : List ℤ)
        → attempt + j ≡ 36
        → j < left
        → run until p op req max rounds left attempt last slept ≡ panicked 36
    climb j zero attempt last slept h k = elim k [ ]
    climb zero (suc left) attempt last slept h k =
        let here : attempt ≡ 36 = omega arith in
        let crashed = pause_crashes attempt last (rounds attempt) here in
        loop-cases until p op req max rounds (λ r. r ≡ panicked 36) left attempt last slept
          (λ _. ap panicked here) (λ d e st. absurd (not-cut attempt last d e st))
          (λ ds r e st _. cc (st, crashed)) (λ ds i c st _. cc (st, crashed))
    climb (suc j) (suc left) attempt last slept h k =
        loop-cases until p op req max rounds (λ r. r ≡ panicked 36) left attempt last slept
          (λ st.
            absurd (
              pause-crash until p op req max rounds 36 attempt last (omega arith) backoff_before
                st))
          (λ d e st. absurd (not-cut attempt last d e st))
          (λ ds r e _ st. absurd (not-stop left attempt r e (omega arith) st))
          (λ ds i c _ _.
            climb j left (suc attempt) (api i c) (slept ++ ds) (omega arith) (omega arith))

-- A policy that keeps the default base delay and allows 37 attempts or more makes Do panic after 36
-- requests, if every reply fails in a transient way and the context stays alive.
pub do_request_overflow :
    (until : Text → Option ℤ) (policy : RetryPolicy) (op : Text) (req : Request) (max : ℕ)
    (rounds : ℕ → Round)
    → (normalize policy).base_delay ≡ default_base
    → 2 ≤ (normalize policy).max_delay
    → 37 ≤ (normalize policy).max_attempts
    → is_idempotent req ≡ true
    → ((k : ℕ) → (rounds k).interrupt ≡ none)
    → ((k : ℕ)
        → (i : ApiInfo) × (c : Error) × (exchange until op req max true
              (rounds k).ctx_err
              (rounds k).reply
            ≡ again i c))
    → do_request until policy op req max rounds ≡ panicked 36
unfolding do_request attempts
do_request_overflow until policy op req max rounds base cap many idem quiet fails =
    climb (normalize policy) base cap until op req max rounds quiet fails 36 (attempts policy req) 0
      nil [] (omega arith) (rw idem (omega arith))
