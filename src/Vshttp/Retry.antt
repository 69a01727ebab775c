-- ===== src/Vshttp/Retry.antt =====
-- vshttp/vshttp.go RetryPolicy and normalize; vshttp/do.go backoff. Durations are nanoseconds.
pub mod Bounds
use vintagestory_go.Base.{ℕ, ◌+◌, ◌-◌, ◌*◌, ◌/◌, ◌%◌, ◌^◌, Option, none, some, ltb, if◌then◌else◌}
use vintagestory_go.Base.Int.{ℤ, pos, negsuc, ltb_ℤ, wrap64}

pub record RetryPolicy : Type 0 where
  pub max_attempts : ℤ
  pub base_delay : ℤ
  pub max_delay : ℤ
  pub max_wait : ℤ

abbrev pub milliseconds : ℕ → ℕ
milliseconds n = n * 1_000_000

abbrev pub seconds : ℕ → ℕ
seconds n = n * 1_000_000_000

abbrev pub default_retry_policy : RetryPolicy
default_retry_policy = record {
  max_attempts = pos 3;
  base_delay = pos (milliseconds 300);
  max_delay = pos (seconds 2);
  max_wait = pos (seconds 10);
}

-- if v < least { v = default }
abbrev raise : ℤ → ℕ → ℕ → ℕ
raise (pos n) least default = if ltb n least then default else n
raise (negsuc n) least default = default

-- A normalized policy: each field is positive.
pub record Limits : Type 0 where
  pub max_attempts : ℕ
  pub base_delay : ℕ
  pub max_delay : ℕ
  pub max_wait : ℕ

unfoldable pub normalize : RetryPolicy → Limits
normalize p = record {
  max_attempts = raise p.max_attempts 1 1;
  base_delay = raise p.base_delay 1 (milliseconds 300);
  max_delay = raise p.max_delay 1 (seconds 2);
  max_wait = raise p.max_wait 1 (seconds 10);
}

-- `delay` after the shift and the cap.
unfoldable pub capped : Limits → ℕ → ℤ
capped p attempt =
    let delay = wrap64 (p.base_delay * 2 ^ attempt) in
    if ltb_ℤ (pos p.max_delay) delay then pos p.max_delay else delay

-- rand.Int64N(int64(delay) / 2) panics unless delay / 2 is positive; `dice` is the random number
-- before it is brought into the range.
jitter : ℤ → ℕ → Option ℕ
jitter (negsuc n) dice = none
jitter (pos d) dice = if ltb 0 (d / 2) then some (dice % (d / 2)) else none

spread : ℤ → ℕ → ℤ
spread (negsuc n) j = negsuc n
spread (pos d) j = wrap64 (d - d / 4 + j)

hinted : Limits → ℤ → ℤ → ℤ
hinted p hint delay =
    if ltb_ℤ (pos 0) hint
    then (if ltb_ℤ hint (pos p.max_wait) then hint else pos p.max_wait)
    else delay

-- func backoff; `none` is the panic of rand.Int64N.
unfoldable pub backoff : Limits → ℕ → ℤ → ℕ → Option ℤ
unfolding capped jitter spread hinted
backoff p attempt hint dice = elim (jitter (capped p attempt) dice) [
  | none ↦ none
  | some j ↦ some (hinted p hint (spread (capped p attempt) j))
]
