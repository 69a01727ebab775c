-- ===== src/Vshttp/Retry/Bounds.antt =====
-- vshttp/do.go backoff: the range of the delay, and when rand.Int64N panics.
use vintagestory_go.Base.{
  ℕ, zero, suc, ◌+◌, ◌-◌, ◌*◌, ◌/◌, ◌≤◌, ◌<◌, ◌≡◌, refl, ◌∙◌, ◌↔◌, ◌⊎◌, Option, none, some, arith,
  min,
}
use vintagestory_go.Base.Int.{ℤ, pos, negsuc, pos_part, ◌≤ℤ◌, ◌<ℤ◌, wrap64-small}
use vintagestory_go.Vshttp.Retry.{Limits, capped, jitter, spread, hinted, backoff}

-- A delay of this many nanoseconds, 126 years, leaves room for the jitter within int64.
abbrev pub most_delay : ℕ
most_delay = 4_000_000_000_000_000_000

jitter-some : (c : ℕ) (dice j : ℕ) → jitter (pos c) dice ≡ some j → (2 ≤ c) × (j < c / 2)
unfolding jitter
jitter-some c dice j h = ground arith

jitter-none : (d : ℤ) (dice : ℕ) → (jitter d dice ≡ none) ↔ (d <ℤ pos 2)
unfolding jitter
jitter-none (negsuc n) dice = (λ _. omega arith, λ _. refl)
jitter-none (pos c) dice = (λ h. ground arith, λ h. ground arith)

spread-pos : (c j : ℕ) → c ≤ most_delay → j < c / 2 → spread (pos c) j ≡ pos (c - c / 4 + j)
unfolding spread
spread-pos c j h k = wrap64-small (c - c / 4 + j) (omega arith)

capped-le : (p : Limits) (a : ℕ) → capped p a ≤ℤ pos p.max_delay
unfolding capped
capped-le p a = ground arith

-- The delay of a hint: the hint, capped.
pub backoff-hint :
    (p : Limits) (a : ℕ) (hint : ℕ) (dice : ℕ) (d : ℤ)
    → 0 < hint
    → backoff p a (pos hint) dice ≡ some d
    → d ≡ pos (min hint p.max_wait)
unfolding backoff
backoff-hint p a hint dice d h k = split (jitter (capped p a) dice) refl
  where
    chosen : (e : ℤ) → hinted p (pos hint) e ≡ pos (min hint p.max_wait)
    chosen e = ground arith

    split : (o : Option ℕ) → jitter (capped p a) dice ≡ o → d ≡ pos (min hint p.max_wait)
    split none e = cc (rw (e, backoff) at k)
    split (some j) e = ground (arith, rw (e, backoff) at k, chosen (spread (capped p a) j))

-- The delay without a hint is within a quarter of the capped exponential delay.
pub record IsJittered (p : Limits) (a : ℕ) (d : ℤ) : Type 0 where
  pub centre : ℕ
  pub delay : ℕ
  pub centre_eq : capped p a ≡ pos centre
  pub delay_eq : d ≡ pos delay
  pub capped_le : centre ≤ p.max_delay
  pub from_below : 3 * centre ≤ 4 * delay
  pub from_above : 4 * delay < 5 * centre

jittered :
    (p : Limits) (a dice j : ℕ) (c : ℤ) (d : ℤ)
    → p.max_delay ≤ most_delay
    → capped p a ≡ c
    → c ≤ℤ pos p.max_delay
    → jitter c dice ≡ some j
    → d ≡ spread c j
    → IsJittered p a d
unfolding jitter
jittered p a dice j (negsuc n) d small h below k e = cc
jittered p a dice j (pos c) d small h below k e =
    let (big, range) = jitter-some c dice j k in
    record {
      centre = c;
      delay = c - c / 4 + j;
      centre_eq = h;
      delay_eq = e ∙ spread-pos c j (omega arith) range;
      capped_le = omega arith;
      from_below = omega arith;
      from_above = omega arith;
    }

pub backoff-IsJittered :
    (p : Limits) (a dice : ℕ) (hint d : ℤ)
    → p.max_delay ≤ most_delay
    → hint ≤ℤ pos 0
    → backoff p a hint dice ≡ some d
    → IsJittered p a d
unfolding backoff
backoff-IsJittered p a dice hint d small no_hint k = split (jitter (capped p a) dice) refl
  where
    chosen : (e : ℤ) → hinted p hint e ≡ e
    chosen e = ground arith

    split : (o : Option ℕ) → jitter (capped p a) dice ≡ o → IsJittered p a d
    split none e = cc (rw (e, backoff) at k)
    split (some j) e =
        jittered p a dice j (capped p a) d small refl (capped-le p a) e
          (ground (arith, rw (e, backoff) at k, chosen (spread (capped p a) j)))

-- Every delay is at most the larger of the two caps, with the jitter's quarter on top.
pub backoff-le :
    (p : Limits) (a dice : ℕ) (hint d : ℤ)
    → p.max_delay ≤ most_delay
    → backoff p a hint dice ≡ some d
    → (pos 0 ≤ℤ d) × ((4 * pos_part d < 5 * p.max_delay) ⊎ (d ≤ℤ pos p.max_wait))
backoff-le p a dice (pos zero) d small k =
    let i = backoff-IsJittered p a dice (pos zero) d small (omega arith) k in
    ground (arith, i.delay_eq, i.from_above, i.capped_le)
backoff-le p a dice (pos (suc h)) d small k =
    ground (arith, backoff-hint p a (suc h) dice d (omega arith) k)
backoff-le p a dice (negsuc h) d small k =
    let i = backoff-IsJittered p a dice (negsuc h) d small (omega arith) k in
    ground (arith, i.delay_eq, i.from_above, i.capped_le)

-- backoff panics exactly when the delay, after the shift has wrapped around and the cap is applied,
-- is below two nanoseconds, whatever the hint.
pub backoff_panics_iff :
    (p : Limits) (a dice : ℕ) (hint : ℤ) → (backoff p a hint dice ≡ none) ↔ (capped p a <ℤ pos 2)
unfolding backoff
backoff_panics_iff p a dice hint =
    let (to, from) = jitter-none (capped p a) dice in
    (λ h. to (split (jitter (capped p a) dice) refl h), λ h. rw (from h, backoff))
  where
    split :
        (o : Option ℕ)
        → jitter (capped p a) dice ≡ o
        → backoff p a hint dice ≡ none
        → jitter (capped p a) dice ≡ none
    split none e h = e
    split (some j) e h = cc (rw (e, backoff) at h)
