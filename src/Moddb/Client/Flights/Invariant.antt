-- ===== src/Moddb/Client/Flights/Invariant.antt =====
-- moddb/client.go list under concurrent calls: the invariant of the interleavings, and what keeps it.
use vintagestory_go.Base.{
  ℕ, ◌≡◌, ◌⊎◌, inl, inr, refl, Bool, false, Option, none, some, List, [], ◌∷◌, In, All, arith,
}
use vintagestory_go.Vshttp.Errors.{Error, Sentinel-discrete, is, is_nil}
use vintagestory_go.Vshttp.Json.{ok, err}
use vintagestory_go.Moddb.Types.{Mod}
use vintagestory_go.Moddb.Client.{Client, Reply, fall_back}
use vintagestory_go.Moddb.Client.Flights.{
  Status, away, waiting, ready, offered, returned, Flight, idle, running, over, World, is_idle,
}
use vintagestory_go.Moddb.Client.Flights.Log.{
  Outcome, Given, Memory, see, Log, gained, IsLatest, IsFallBack, IsAnswer, IsServed, IsLeft,
}

abbrev pub Past : Type 0
Past = List (List Mod × ℕ)

abbrev pub IsFlying : Log → Flight → Type 0
IsFlying log idle = log.flying ≡ none
IsFlying log (running stale) = log.flying ≡ some stale
IsFlying log (over r) =
    ((stale : List Mod) × (log.flying ≡ some stale))
    × ((g : Given) × (log.pending ≡ g ∷ []) × IsAnswer g r)

-- Each outcome that is not handed out is one that the caller may be given.
abbrev pub Covers : List Given → List Given → Type 0
Covers seen pending = All (λ g. In g seen) pending

-- What holds of a caller; one that waits has a flight to wait for.
abbrev pub IsPlaced :
    List (List Mod × ℕ) → List Given → Bool → Option Error → Memory → Status → Type 0
IsPlaced past pending idle? ended m away = Unit {0}
IsPlaced past pending idle? ended m waiting = (idle? ≡ false) × Covers m.seen pending
IsPlaced past pending idle? ended m (ready stale) = (stale ≡ m.held) × Covers m.seen pending
IsPlaced past pending idle? ended m (offered r) = IsServed past m r
IsPlaced past pending idle? ended m (returned r) = IsServed past m r ⊎ IsLeft ended r

abbrev pub IsDone : Option Error → Type 0
IsDone none = Unit {0}
IsDone (some e) = is_nil e ≡ false

-- The place of caller `i`, if its status is `s`.
abbrev pub Placed : Log → World → ℕ → Status → Type 0
Placed log w i s =
    IsPlaced log.catalogs log.pending (is_idle w.flight) (w.contexts i) (log.callers i) s

pub record IsSound (start : Client) (log : Log) (w : World) : Type 0 where
  pub same : (w.client.base_url ≡ start.base_url) × (w.client.retry ≡ start.retry)
  pub cached : IsLatest log.catalogs w.client
  pub flight : IsFlying log w.flight
  pub done : (i : ℕ) → IsDone (w.contexts i)
  pub callers : (i : ℕ) → Placed log w i (w.callers i)

gained-In :
    (later : ℕ) (o : Outcome) (past : Past) (x : List Mod × ℕ)
    → In x past
    → In x (gained later o past)
gained-In later (ok items) past x m = inr m
gained-In later (err e) past x m = m

IsServed-gained :
    (later : ℕ) (o : Outcome) (g : Given) (past : Past) (m : Memory) (r : Reply)
    → IsServed past m r
    → IsServed (gained later o past) (see g m) r
IsServed-gained later o g past m r (inl h) = inl (record {
  now = h.now;
  items = h.items;
  at = h.at;
  looked = h.looked;
  source = gained-In later o past (h.items, h.at) h.source;
  present = h.present;
  fresh = h.fresh;
  reply = h.reply;
})
IsServed-gained later o g past m r (inr (x, k, a)) = inr (x, inr k, a)

pub IsPlaced-gained :
    (later : ℕ) (o : Outcome) (g : Given) (past : Past) (pending : List Given) (b : Bool)
    (x : Option Error) (m : Memory) (s : Status)
    → IsPlaced past pending b x m s
    → IsPlaced (gained later o past) (g ∷ []) false x (see g m) s
IsPlaced-gained later o g past pending b x m away p = tt
IsPlaced-gained later o g past pending b x m waiting p = (refl, (inl refl, tt))
IsPlaced-gained later o g past pending b x m (ready stale) (p, c) = (p, (inl refl, tt))
IsPlaced-gained later o g past pending b x m (offered r) p = IsServed-gained later o g past m r p
IsPlaced-gained later o g past pending b x m (returned r) (inl p) =
    inl (IsServed-gained later o g past m r p)
IsPlaced-gained later o g past pending b x m (returned r) (inr l) = inr l

-- Only a caller that waits asks for a flight.
pub IsPlaced-busy :
    (past : Past) (pending : List Given) (b b' : Bool) (x : Option Error) (m : Memory) (s : Status)
    → b' ≡ false
    → IsPlaced past pending b x m s
    → IsPlaced past pending b' x m s
IsPlaced-busy past pending b b' x m away h p = p
IsPlaced-busy past pending b b' x m waiting h (_, c) = (h, c)
IsPlaced-busy past pending b b' x m (ready stale) h p = p
IsPlaced-busy past pending b b' x m (offered r) h p = p
IsPlaced-busy past pending b b' x m (returned r) h p = p

-- Only a caller that left asks for the error of its context.
pub IsPlaced-ended :
    (past : Past) (pending : List Given) (b : Bool) (x y : Option Error) (m : Memory) (s : Status)
    → x ≡ none
    → IsPlaced past pending b x m s
    → IsPlaced past pending b y m s
IsPlaced-ended past pending b x y m away h p = p
IsPlaced-ended past pending b x y m waiting h p = p
IsPlaced-ended past pending b x y m (ready stale) h p = p
IsPlaced-ended past pending b x y m (offered r) h p = p
IsPlaced-ended past pending b x y m (returned r) h (inl s) = inl s
IsPlaced-ended past pending b x y m (returned r) h (inr (e, k, _, _)) =
    absurd (ground (arith, h, k))

pub fall_back-IsFallBack : (stale : List Mod) (e : Error) → IsFallBack stale e (fall_back stale e)
unfolding fall_back is Sentinel-discrete
fall_back-IsFallBack [] e = refl
fall_back-IsFallBack (m ∷ ms) e = (refl, refl)
