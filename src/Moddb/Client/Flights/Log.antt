-- ===== src/Moddb/Client/Flights/Log.antt =====
-- moddb/client.go list under concurrent calls: what an observer of the events notes, who sees neither
-- the client nor the flight, and which replies it expects.
use vintagestory_go.Base.{
  ℕ, ◌+◌, ◌<◌, ◌≡◌, ◌≢◌, ◌⊎◌, true, false, Option, none, some, List, [], ◌∷◌, ◌++◌, In, text,
}
use vintagestory_go.Vshttp.Errors.{Error, nil, Sentinel, is, is_nil}
use vintagestory_go.Vshttp.Do.{Round}
use vintagestory_go.Vshttp.Json.{Result, ok, err}
use vintagestory_go.Moddb.Types.{Mod}
use vintagestory_go.Moddb.Client.{Client, Env, Reply, stale_error, fetch_mods, list_operation}
use vintagestory_go.Moddb.Client.Flights.{
  World, Event, look, enter, finish, deliver, receive, cancel, leave, update, Reach, here, next,
}

abbrev pub Outcome : Type 0
Outcome = Result (List Mod)

-- The outcome of a fetch with the stale copy of the caller that started its flight.
abbrev pub Given : Type 0
Given = Outcome × List Mod

-- What is noted of a caller: the time of its look, the catalog that was the last one then, and the
-- outcomes that were not handed out then or came later.
pub record Memory : Type 0 where
  pub asked : Option ℕ
  pub held : List Mod
  pub seen : List Given

-- The catalogs that fetches gave, each with its time, the last one first; the stale copy of the flight
-- that is not handed out yet, its outcome if it has one, and the callers.
pub record Log : Type 0 where
  pub catalogs : List (List Mod × ℕ)
  pub flying : Option (List Mod)
  pub pending : List Given
  pub callers : ℕ → Memory

abbrev pub latest : List (List Mod × ℕ) → List Mod
latest [] = []
latest (x ∷ past) = x.0

abbrev pub gained : (later : ℕ) → Outcome → List (List Mod × ℕ) → List (List Mod × ℕ)
gained later (err e) catalogs = catalogs
gained later (ok items) catalogs = (items, later) ∷ catalogs

abbrev pub stale_of : Option (List Mod) → List Mod
stale_of none = []
stale_of (some stale) = stale

abbrev pub started : List Mod → Option (List Mod) → Option (List Mod)
started held none = some held
started held (some stale) = some stale

abbrev pub see : Given → Memory → Memory
see g m = record { asked = m.asked; held = m.held; seen = g ∷ m.seen }

abbrev pub note_outcome : Log → (later : ℕ) → Outcome → Log
note_outcome log later o = record {
  catalogs = gained later o log.catalogs;
  flying = log.flying;
  pending = (o, stale_of log.flying) ∷ [];
  callers = λ i. see (o, stale_of log.flying) (log.callers i);
}

abbrev pub note_fetch : Log → (later : ℕ) → Option Outcome → Log
note_fetch log later none = log
note_fetch log later (some o) = note_outcome log later o

abbrev pub note_look : Log → (i now : ℕ) → Log
note_look log i now = record {
  catalogs = log.catalogs;
  flying = log.flying;
  pending = log.pending;
  callers =
      update log.callers i
        (record { asked = some now; held = latest log.catalogs; seen = log.pending });
}

abbrev pub note_enter : Log → ℕ → Log
note_enter log i = record {
  catalogs = log.catalogs;
  flying = started (log.callers i).held log.flying;
  pending = log.pending;
  callers = log.callers;
}

abbrev pub note_delivery : Log → Log
note_delivery log = record {
  catalogs = log.catalogs;
  flying = none;
  pending = [];
  callers = log.callers;
}

module _ (env : Env) (start : Client) where
  -- What fetchCatalog makes of the replies of the network.
  abbrev pub fetched : (ℕ → Round) → Option Outcome
  fetched rounds = fetch_mods env start (list_operation env) (start.base_url ++ text "/mods") rounds

  unfoldable pub note : Log → Event → Log
  note log (look i now) = note_look log i now
  note log (finish later rounds) = note_fetch log later (fetched rounds)
  note log deliver = note_delivery log
  note log (enter i) = note_enter log i
  note log (receive i) = log
  note log (cancel i e) = log
  note log (leave i) = log

  -- The notes on the events that led to a world.
  unfoldable pub log_of : {w : World} → Reach env start w → Log
  unfolding note
  log_of here = record {
    catalogs = [];
    flying = none;
    pending = [];
    callers = λ i. record { asked = none; held = []; seen = [] };
  }
  log_of (next r e h) = note (log_of r) e

-- A client keeps the catalog of the last fetch that gave one, with its time.
abbrev pub IsLatest : List (List Mod × ℕ) → Client → Type 0
IsLatest [] c = c.catalog ≡ []
IsLatest (x ∷ past) c = (c.catalog ≡ x.0) × (c.catalog_at ≡ x.1)

-- The reply to a failure: the stale catalog and an error that matches ErrStale, or the failure alone.
abbrev pub IsFallBack : List Mod → Error → Reply → Type 0
IsFallBack [] e r = r ≡ ([], e)
IsFallBack (m ∷ ms) e r =
    (r ≡ (m ∷ ms, stale_error e)) × (is (stale_error e) Sentinel.moddb_stale ≡ true)

abbrev pub IsAnswer : Given → Reply → Type 0
IsAnswer (ok items, stale) r = r ≡ (items, nil)
IsAnswer (err e, stale) r = IsFallBack stale e r

-- The reply from the cache: a catalog that a fetch gave, ten minutes before the look or less.
pub record IsHit (catalogs : List (List Mod × ℕ)) (asked : Option ℕ) (r : Reply) : Type 0 where
  pub now : ℕ
  pub items : List Mod
  pub at : ℕ
  pub looked : asked ≡ some now
  pub source : In (items, at) catalogs
  pub present : items ≢ []
  pub fresh : now < at + 600_000_000_000
  pub reply : r ≡ (items, nil)

-- The replies that the observer expects for a caller: from the cache, or the answer to a fetch that
-- was not handed out at its look or came later.
abbrev pub IsServed : List (List Mod × ℕ) → Memory → Reply → Type 0
IsServed catalogs m r = IsHit catalogs m.asked r ⊎ ((g : Given) × In g m.seen × IsAnswer g r)

-- The reply to a caller whose context is done, with its error.
abbrev pub IsLeft : Option Error → Reply → Type 0
IsLeft ended r = (e : Error) × (ended ≡ some e) × (is_nil e ≡ false) × (r ≡ ([], e))
