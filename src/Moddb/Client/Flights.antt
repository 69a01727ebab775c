-- ===== src/Moddb/Client/Flights.antt =====
-- moddb/client.go list, called by many goroutines. Each call reads the cache under the lock, enters
-- the flight of the catalog (singleflight.Group.DoChan), and waits for its result or for the end of
-- its context. DoChan starts a flight if there is none for the key and else lets the caller share
-- it; a flight runs on its own, and its result goes to every caller that waits when it is over. A
-- fetch that panics ends the program, so it is no event.
pub mod Log
pub mod Invariant
pub mod Steps
pub mod Interleavings
pub mod Progress
use vintagestory_go.Base.{
  ℕ, ◌==◌, ◌≡◌, Bool, true, false, Option, none, some, List, [], ◌∷◌, ◌++◌, text, if◌then◌else◌,
}
use vintagestory_go.Vshttp.Errors.{Error, nil, is_nil}
use vintagestory_go.Vshttp.Do.{Round}
use vintagestory_go.Vshttp.Json.{Result, ok, err}
use vintagestory_go.Moddb.Types.{Mod}
use vintagestory_go.Moddb.Client.{
  Client, Env, Reply, fall_back, fetch_mods, is_fresh, list_operation,
}

-- Where a caller is: not in the call; past the look at the cache, with its copy as the stale one; at
-- the select; given the result of the flight; and back, with a reply.
pub data Status : Type 0 where
  away waiting : Status
  ready : (stale : List Mod) → Status
  offered returned : Reply → Status

-- The flight of the catalog: none, or one that fetches for the stale copy of the caller that started
-- it, or one whose function has returned.
pub data Flight : Type 0 where
  idle : Flight
  running : (stale : List Mod) → Flight
  over : Reply → Flight

-- The client, the flight, and the callers by number with the errors of their contexts, which are `none`
-- while a context is not done.
pub record World : Type 0 where
  pub client : Client
  pub flight : Flight
  pub callers : ℕ → Status
  pub contexts : ℕ → Option Error

pub data Event : Type 0 where
  look : (i now : ℕ) → Event
  enter : (i : ℕ) → Event
  finish : (later : ℕ) → (ℕ → Round) → Event
  deliver : Event
  receive : (i : ℕ) → Event
  cancel : (i : ℕ) → Error → Event
  leave : (i : ℕ) → Event

abbrev pub update {ℓ} : {A : Type ℓ} → (ℕ → A) → ℕ → A → ℕ → A
update f i s j = if j == i then s else f j

abbrev pub set_caller : World → ℕ → Status → World
set_caller w i s = record w { callers = update w.callers i s }

abbrev pub is_idle : Flight → Bool
is_idle idle = true
is_idle (running stale) = false
is_idle (over r) = false

abbrev join_flight : List Mod → Flight → Flight
join_flight stale idle = running stale
join_flight stale (running s) = running s
join_flight stale (over r) = over r

on_enter : World → ℕ → Status → Option World
on_enter w i (ready stale) =
    some (record (set_caller w i waiting) { flight = join_flight stale w.flight })
on_enter w i _ = none

-- The function of the flight: fetchCatalog, and the stale copy if it fails.
abbrev pub after_fetch : World → List Mod → (later : ℕ) → Result (List Mod) → World
after_fetch w stale later (err e) = record w { flight = over (fall_back stale e) }
after_fetch w stale later (ok items) = record w {
  client = record w.client { catalog = items; catalog_at = later };
  flight = over (items, nil);
}

on_fetch : World → List Mod → (later : ℕ) → Option (Result (List Mod)) → Option World
on_fetch w stale later none = none
on_fetch w stale later (some o) = some (after_fetch w stale later o)

abbrev pub offer : Reply → Status → Status
offer r waiting = offered r
offer r away = away
offer r (ready stale) = ready stale
offer r (offered s) = offered s
offer r (returned s) = returned s

on_deliver : World → Flight → Option World
on_deliver w (over r) = some (record w { flight = idle; callers = λ i. offer r (w.callers i) })
on_deliver w _ = none

on_receive : World → ℕ → Status → Option World
on_receive w i (offered r) = some (set_caller w i (returned r))
on_receive w i _ = none

-- A context ends once, with an error that is not nil.
abbrev pub end_context : World → ℕ → Error → World
end_context w i e = record w { contexts = update w.contexts i (some e) }

on_cancel : World → ℕ → Error → Option Error → Option World
on_cancel w i e none = if is_nil e then none else some (end_context w i e)
on_cancel w i e (some x) = none

on_done : World → ℕ → Option Error → Option World
on_done w i none = none
on_done w i (some e) = some (set_caller w i (returned ([], e)))

-- The select may take the end of the context, also if the result is there.
on_leave : World → ℕ → Status → Option World
unfolding on_done
on_leave w i waiting = on_done w i (w.contexts i)
on_leave w i (offered r) = on_done w i (w.contexts i)
on_leave w i _ = none

module _ (env : Env) where
  on_look : World → (i now : ℕ) → Status → Option World
  on_look w i now away =
      if is_fresh env w.client now
      then some (set_caller w i (returned (w.client.catalog, nil)))
      else some (set_caller w i (ready w.client.catalog))
  on_look w i now _ = none

  on_finish : World → (later : ℕ) → (ℕ → Round) → Flight → Option World
  unfolding on_fetch
  on_finish w later rounds (running stale) =
      on_fetch w stale later
        (fetch_mods env w.client (list_operation env) (w.client.base_url ++ text "/mods") rounds)
  on_finish w later rounds _ = none

  -- One event; `none` if it cannot happen.
  unfoldable pub step : World → Event → Option World
  unfolding on_look on_enter on_finish on_deliver on_receive on_cancel on_leave
  step w (look i now) = on_look w i now (w.callers i)
  step w (enter i) = on_enter w i (w.callers i)
  step w (finish later rounds) = on_finish w later rounds w.flight
  step w deliver = on_deliver w w.flight
  step w (receive i) = on_receive w i (w.callers i)
  step w (cancel i e) = on_cancel w i e (w.contexts i)
  step w (leave i) = on_leave w i (w.callers i)

  pub run_from : Option World → List Event → Option World
  run_from none es = none
  run_from (some w) [] = some w
  run_from (some w) (e ∷ es) = run_from (step w e) es

  -- A schedule of events.
  unfoldable pub run : World → List Event → Option World
  unfolding run_from
  run w es = run_from (some w) es

  -- Nobody has called yet, no context is done, and the cache is empty.
  abbrev pub initial : Client → World
  initial c = record {
    client = record c { catalog = [] };
    flight = idle;
    callers = λ i. away;
    contexts = λ i. none;
  }

  pub data Reach (c : Client) : World → Type 0 where
    here : Reach c (initial c)
    next : {w w' : World} → Reach c w → (e : Event) → step w e ≡ some w' → Reach c w'
