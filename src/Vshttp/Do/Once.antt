-- ===== src/Vshttp/Do/Once.antt =====
-- vshttp/do.go Do: a request that is not idempotent.
use vintagestory_go.Base.{ℕ, ◌≡◌, refl, false, Option, none, [], Text}
use vintagestory_go.Base.Int.{ℤ}
use vintagestory_go.Vshttp.Errors.{api}
use vintagestory_go.Vshttp.Request.{Request}
use vintagestory_go.Vshttp.Retry.{RetryPolicy}
use vintagestory_go.Vshttp.Do.{
  Round, Run, returned, stop, again, exchange, attempts, is_idempotent, pause, loop, do_request,
}

-- The run of a single attempt.
abbrev pub run_once : (Text → Option ℤ) → Text → Request → ℕ → Round → Run
run_once until op req max r = elim (exchange until op req max false r.ctx_err r.reply) [
  | stop reply e ↦ returned reply e 1 []
  | again i e ↦ returned none (api i e) 1 []
]

-- A request that is not idempotent is sent once, without a delay and without a panic, whatever the
-- policy says of attempts and delays.
pub do_request_once :
    (until : Text → Option ℤ) (policy : RetryPolicy) (op : Text) (req : Request) (max : ℕ)
    (rounds : ℕ → Round)
    → is_idempotent req ≡ false
    → do_request until policy op req max rounds ≡ run_once until op req max (rounds 0)
unfolding do_request attempts loop pause
do_request_once until policy op req max rounds h = rw h refl
