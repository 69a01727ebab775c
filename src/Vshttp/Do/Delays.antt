-- ===== src/Vshttp/Do/Delays.antt =====
-- vshttp/do.go: the delays of the retry loop, and its panics.
use vintagestory_go.Base.{
  ℕ, zero, suc, ◌+◌, ◌-◌, ◌≤◌, ◌<◌, ◌≡◌, refl, subst, ◌≢◌, Option, none, some, List, [], ◌∷◌, ◌++◌,
  Text, arith, All, length, length-append,
}
use vintagestory_go.Base.Int.{ℤ}
use vintagestory_go.Vshttp.Errors.{Error, api}
use vintagestory_go.Vshttp.Request.{Request}
use vintagestory_go.Vshttp.Retry.{Limits, backoff}
use vintagestory_go.Vshttp.Do.{
  Round, sleep, Pause, ready, cut, crash, pause, retry_after_of, Run, panicked, returned, loop,
}
use vintagestory_go.Vshttp.Do.Loop.{loop-cases}

-- The delays of a run: each has the property, and there are fewer of them than attempts.
abbrev pub Paced : (ℤ → Type 0) → ℕ → Run → Type 0
Paced P total (panicked n) = Unit {0}
Paced P total (returned r e n ds) = All P ds × (length ds ≤ total - 1)

abbrev pub NoPanic : Run → Type 0
NoPanic (panicked n) = ⊥
NoPanic (returned r e n ds) = Unit {0}

All-append : (P : ℤ → Type 0) (xs ys : List ℤ) → All P xs → All P ys → All P (xs ++ ys)
All-append P [] ys h k = k
All-append P (x ∷ xs) ys h k = (h.0, All-append P xs ys h.1 k)

module _ (P : ℤ → Type 0) (p : Limits) where
  -- What a pause adds to the delays.
  abbrev Adds : ℕ → Pause → Type 0
  Adds attempt (ready ds) = All P ds × (length ds + (attempt - 1) ≤ attempt)
  Adds attempt (cut d e) = P d × (0 < attempt)
  Adds attempt crash = Unit {0}

  sleep-Adds :
      (attempt : ℕ) (o : Option ℤ) (i : Option Error)
      → ((d : ℤ) → o ≡ some d → P d)
      → Adds (suc attempt) (sleep o i)
  unfolding sleep
  sleep-Adds attempt none i h = tt
  sleep-Adds attempt (some d) none h = ((h d refl, tt), omega arith)
  sleep-Adds attempt (some d) (some e) h = (h d refl, omega arith)

  pause-Adds :
      (attempt : ℕ) (last : Error) (r : Round)
      → ((a dice : ℕ) (hint d : ℤ) → backoff p a hint dice ≡ some d → P d)
      → Adds attempt (pause p attempt last r)
  unfolding pause
  pause-Adds zero last r h = (tt, omega arith)
  pause-Adds (suc a) last r h =
      sleep-Adds a (backoff p a (retry_after_of last) r.dice) r.interrupt (h a r.dice _)

module _ (until : Text → Option ℤ) (p : Limits) (op : Text) (req : Request) (max : ℕ)
    (rounds : ℕ → Round) where
  pub loop-Paced :
      (P : ℤ → Type 0)
      → ((a dice : ℕ) (hint d : ℤ) → backoff p a hint dice ≡ some d → P d)
      → (left attempt : ℕ) (last : Error) (slept : List ℤ) → All P slept
      → length slept ≤ attempt - 1
      → Paced P (attempt + left) (loop until p op req max rounds left attempt last slept)
  unfolding loop
  loop-Paced P h zero attempt last slept a k = (a, omega (arith, k))
  loop-Paced P h (suc left) attempt last slept a k =
      loop-cases until p op req max rounds (Paced P (attempt + suc left)) left attempt last slept
        (λ _. tt)
        (λ d e st.
          let adds : Adds P p attempt (cut d e) =
            subst (Adds P p attempt) st (pause-Adds P p attempt last (rounds attempt) h) in
          (
            All-append P slept (d ∷ []) a (adds.0, tt),
            omega (arith, length-append slept (d ∷ []), adds.1, k),
          ))
        (λ ds r e st _.
          let adds : Adds P p attempt (ready ds) =
            subst (Adds P p attempt) st (pause-Adds P p attempt last (rounds attempt) h) in
          (All-append P slept ds a adds.0, omega (arith, length-append slept ds, adds.1, k)))
        (λ ds i c st _.
          let adds : Adds P p attempt (ready ds) =
            subst (Adds P p attempt) st (pause-Adds P p attempt last (rounds attempt) h) in
          let same : suc attempt + left ≡ attempt + suc left = omega arith in
          rw (← same) (
            loop-Paced P h left (suc attempt) (api i c) (slept ++ ds)
              (All-append P slept ds a adds.0) (omega (arith, length-append slept ds, adds.1, k))))

  sleep-crash : (o : Option ℤ) (i : Option Error) → sleep o i ≡ crash → o ≡ none
  unfolding sleep
  sleep-crash o i h = ground arith

  pub pause-crash :
      (total attempt : ℕ) (last : Error)
      → attempt < total
      → ((a dice : ℕ) (hint : ℤ) → suc a < total → backoff p a hint dice ≢ none)
      → pause p attempt last (rounds attempt) ≢ crash
  unfolding pause
  pause-crash total zero last lt h e = cc
  pause-crash total (suc a) last lt h e =
      h a (rounds (suc a)).dice (retry_after_of last) lt
        (sleep-crash _ (rounds (suc a)).interrupt e)

  pub loop-NoPanic :
      (total left attempt : ℕ) (last : Error) (slept : List ℤ)
      → attempt + left ≡ total
      → ((a dice : ℕ) (hint : ℤ) → suc a < total → backoff p a hint dice ≢ none)
      → NoPanic (loop until p op req max rounds left attempt last slept)
  unfolding loop
  loop-NoPanic total zero attempt last slept e h = tt
  loop-NoPanic total (suc left) attempt last slept e h =
      loop-cases until p op req max rounds NoPanic left attempt last slept
        (λ st. pause-crash total attempt last (omega arith) h st) (λ d c st. tt) (λ ds r c st k. tt)
        (λ ds i c st k.
          loop-NoPanic total left (suc attempt) (api i c) (slept ++ ds) (omega arith) h)
