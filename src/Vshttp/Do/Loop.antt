-- ===== src/Vshttp/Do/Loop.antt =====
-- vshttp/do.go: the retry loop, by induction on the attempts left.
use vintagestory_go.Base.{
  ℕ, zero, suc, ◌+◌, ◌≤◌, ◌≡◌, refl, ◌⊎◌, inl, inr, false, Option, none, some, List, [], ◌∷◌, ◌++◌,
  Text, ltb, arith,
}
use vintagestory_go.Base.Int.{ℤ}
use vintagestory_go.Vshttp.Errors.{Kind, ApiInfo, Error, nil, api}
use vintagestory_go.Vshttp.Request.{Request, Response}
use vintagestory_go.Vshttp.Retry.{Limits}
use vintagestory_go.Vshttp.Status.{request_info}
use vintagestory_go.Vshttp.Do.{
  Round, Next, stop, again, exchange, sleep, Pause, ready, cut, crash, pause, Run, panicked,
  returned, loop,
}
use vintagestory_go.Vshttp.Do.Laws.{IsDelivery, IsFinal, exchange-stop_some, exchange-stop_none}

abbrev pub sent : Run → ℕ
sent (panicked n) = n
sent (returned r e n ds) = n

module _ (until : Text → Option ℤ) (p : Limits) (op : Text) (req : Request) (max : ℕ)
    (rounds : ℕ → Round) where
  abbrev pub run : ℕ → ℕ → Error → List ℤ → Run
  run = loop until p op req max rounds

  abbrev pub next : ℕ → ℕ → Next
  next left attempt =
      exchange until op req max (ltb 0 left) (rounds attempt).ctx_err (rounds attempt).reply

  -- The three ways in which the loop takes a step, for proofs about its result.
  pub loop-cases {κ} :
      (P : Run → Type κ) (left attempt : ℕ) (last : Error) (slept : List ℤ)
      → (pause p attempt last (rounds attempt) ≡ crash → P (panicked attempt))
      → ((d : ℤ) (e : Error)
          → pause p attempt last (rounds attempt) ≡ cut d e
          → P (
              returned none
                (api (request_info op req Kind.canceled false) e)
                attempt
                (slept ++ d ∷ [])))
      → ((ds : List ℤ) (r : Option (Response × Text)) (e : Error)
          → pause p attempt last (rounds attempt) ≡ ready ds
          → next left attempt ≡ stop r e
          → P (returned r e (suc attempt) (slept ++ ds)))
      → ((ds : List ℤ) (i : ApiInfo) (c : Error)
          → pause p attempt last (rounds attempt) ≡ ready ds
          → next left attempt ≡ again i c
          → P (run left (suc attempt) (api i c) (slept ++ ds)))
      → P (run (suc left) attempt last slept)
  unfolding loop
  loop-cases P left attempt last slept crashed stopped ended more =
      on_pause (pause p attempt last (rounds attempt)) refl
    where
      on_next :
          (ds : List ℤ)
          → pause p attempt last (rounds attempt) ≡ ready ds
          → (n : Next) → next left attempt ≡ n
          → P (run (suc left) attempt last slept)
      on_next ds h (stop r e) k = rw (h, loop) (rw (k, loop) (ended ds r e h k))
      on_next ds h (again i c) k = rw (h, loop) (rw (k, loop) (more ds i c h k))

      on_pause :
          (q : Pause)
          → pause p attempt last (rounds attempt) ≡ q
          → P (run (suc left) attempt last slept)
      on_pause crash h = rw (h, loop) (crashed h)
      on_pause (cut d e) h = rw (h, loop) (stopped d e h)
      on_pause (ready ds) h = on_next ds h (next left attempt) refl

  -- Between the requests sent before and the attempts left.
  pub loop-sent :
      (left attempt : ℕ) (last : Error) (slept : List ℤ)
      → (attempt ≤ sent (run left attempt last slept))
        × (sent (run left attempt last slept) ≤ attempt + left)
  unfolding loop
  loop-sent zero attempt last slept = (omega arith, omega arith)
  loop-sent (suc left) attempt last slept =
      loop-cases (λ r. (attempt ≤ sent r) × (sent r ≤ attempt + suc left)) left attempt last slept
        (λ h. (omega arith, omega arith)) (λ d e h. (omega arith, omega arith))
        (λ ds r e h k. (omega arith, omega arith))
        (λ ds i c h k.
          let ih = loop-sent left (suc attempt) (api i c) (slept ++ ds) in
          (omega (arith, ih.0), omega (arith, ih.1)))

  -- Why the loop ends with an error: the attempts are used up, or the last reply failed in a way
  -- that is not retried or after the context ended, or the context ended a delay.
  abbrev pub Reason : ℕ → ℕ → ApiInfo → Error → Type 0
  Reason total n i c =
      (n ≡ total)
      ⊎ ((k : ℕ) × (n ≡ suc k) × IsFinal (rounds k).ctx_err i)
      ⊎ (((rounds n).interrupt ≡ some c) × (i.kind ≡ Kind.canceled))

  -- What a result of the loop says, for `total` attempts in all.
  abbrev pub Outcome : ℕ → Run → Type 0
  Outcome total (panicked n) = Unit {0}
  Outcome total (returned (some (resp, b)) e n ds) =
      (e ≡ nil) × ((k : ℕ) × (n ≡ suc k) × IsDelivery max (ltb n total) (rounds k).reply resp b)
  Outcome total (returned none e n ds) =
      (i : ApiInfo) × (c : Error) × (e ≡ api i c) × Reason total n i c

  stop-Outcome :
      (left attempt total : ℕ) (r : Option (Response × Text)) (e : Error) (ds : List ℤ)
      → attempt + suc left ≡ total
      → next left attempt ≡ stop r e
      → Outcome total (returned r e (suc attempt) ds)
  stop-Outcome left attempt total (some (resp, b)) e ds h k =
      let (no_error, d) =
        exchange-stop_some until op req max (ltb 0 left) (rounds attempt).ctx_err
          (rounds attempt).reply resp b e k in
      let same : ltb (suc attempt) total ≡ ltb 0 left = ground arith in
      (no_error, (attempt, refl, rw same d))
  stop-Outcome left attempt total none e ds h k =
      let (i, c, is_api, final) =
        exchange-stop_none until op req max (ltb 0 left) (rounds attempt).ctx_err
          (rounds attempt).reply e k in
      (i, c, is_api, inr (inl (attempt, refl, final)))

  sleep-cut :
      (o : Option ℤ) (interrupt : Option Error) (d : ℤ) (e : Error)
      → sleep o interrupt ≡ cut d e
      → interrupt ≡ some e
  unfolding sleep
  sleep-cut o interrupt d e h = ground arith

  pub pause-cut :
      (attempt : ℕ) (last : Error) (d : ℤ) (e : Error)
      → pause p attempt last (rounds attempt) ≡ cut d e
      → (rounds attempt).interrupt ≡ some e
  unfolding pause
  pause-cut zero last d e h = ground arith
  pause-cut (suc attempt) last d e h = sleep-cut _ (rounds (suc attempt)).interrupt d e h

  pub loop-Outcome :
      (left attempt total : ℕ) (last : Error) (slept : List ℤ)
      → attempt + left ≡ total
      → (left ≡ 0 → (i : ApiInfo) × (c : Error) × (last ≡ api i c))
      → Outcome total (run left attempt last slept)
  unfolding loop
  loop-Outcome zero attempt total last slept h k =
      let (i, c, e) = k refl in (i, c, e, inl (omega arith))
  loop-Outcome (suc left) attempt total last slept h k =
      loop-cases (Outcome total) left attempt last slept (λ _. tt)
        (λ d e st. (_, e, refl, inr (inr (pause-cut attempt last d e st, refl))))
        (λ ds r e _ st. stop-Outcome left attempt total r e _ h st)
        (λ ds i c _ _.
          loop-Outcome left (suc attempt) total (api i c) (slept ++ ds) (omega arith)
            (λ _. (i, c, refl)))
