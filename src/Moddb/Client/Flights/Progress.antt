-- ===== src/Moddb/Client/Flights/Progress.antt =====
-- moddb/client.go list under concurrent calls: no caller waits for nothing.
use vintagestory_go.Base.{
  ℕ, ◌==◌, ◌≡◌, refl, subst, ap, ◌∙◌, false, Option, some, List, [], ◌∷◌, ◌++◌, text, if◌then◌else◌,
  arith,
}
use vintagestory_go.Vshttp.Errors.{nil}
use vintagestory_go.Vshttp.Do.{Round}
use vintagestory_go.Vshttp.Json.{Result, ok, err}
use vintagestory_go.Moddb.Types.{Mod}
use vintagestory_go.Moddb.Client.{Client, Env, Reply, fall_back, fetch_mods, list_operation}
use vintagestory_go.Moddb.Client.Flights.{
  waiting, offered, returned, Flight, idle, running, over, World, Event, finish, deliver, receive,
  set_caller, is_idle, after_fetch, on_fetch, offer, on_deliver, on_receive, on_finish, step,
  run_from, run, Reach,
}
use vintagestory_go.Moddb.Client.Flights.Invariant.{Placed}
use vintagestory_go.Moddb.Client.Flights.Log.{log_of}
use vintagestory_go.Moddb.Client.Flights.Interleavings.{Reach-IsSound}

-- What is left of a flight: its function returns, then its result is handed out.
abbrev pub rest_of : Flight → (later : ℕ) → (ℕ → Round) → List Event
rest_of idle later rounds = []
rest_of (running stale) later rounds = finish later rounds ∷ deliver ∷ []
rest_of (over r) later rounds = deliver ∷ []

module _ (env : Env) where
  -- The end of a flight, and the reply that caller `i` takes.
  abbrev pub IsAnswered : World → List Event → (i j : ℕ) → Type 0
  IsAnswered w events i j =
      (w' : World) × (r : Reply) × (run env w (events ++ receive i ∷ []) ≡ some w')
      × (w'.callers i ≡ returned r)
      × (w'.callers j ≡ (if j == i then returned r else offered r))

  step-deliver :
      (w : World) (r : Reply)
      → w.flight ≡ over r
      → step env w deliver ≡ some (record w { flight = idle; callers = λ i. offer r (w.callers i) })
  unfolding step on_deliver
  step-deliver w r k = rw k refl

  step-receive :
      (w : World) (i : ℕ) (r : Reply)
      → w.callers i ≡ offered r
      → step env w (receive i) ≡ some (set_caller w i (returned r))
  unfolding step on_receive
  step-receive w i r k = rw k refl

  step-finish :
      (w : World) (stale : List Mod) (later : ℕ) (rounds : ℕ → Round) (o : Result (List Mod))
      → w.flight ≡ running stale
      → fetch_mods env w.client (list_operation env) (w.client.base_url ++ text "/mods") rounds
        ≡ some o
      → step env w (finish later rounds) ≡ some (after_fetch w stale later o)
  unfolding step on_finish on_fetch
  step-finish w stale later rounds o k f = rw k (rw f refl)

  run-cons :
      (w w' : World) (e : Event) (es : List Event)
      → step env w e ≡ some w'
      → run env w (e ∷ es) ≡ run env w' es
  unfolding run run_from
  run-cons w w' e es h = ap (λ (o : Option World). run_from env o es) h

  run-receive :
      (w : World) (i : ℕ) (r : Reply)
      → w.callers i ≡ offered r
      → run env w (receive i ∷ []) ≡ some (set_caller w i (returned r))
  unfolding run run_from
  run-receive w i r k =
      run-cons w (set_caller w i (returned r)) (receive i) [] (step-receive w i r k)

  over-IsAnswered :
      (w : World) (r : Reply) (i j : ℕ)
      → w.flight ≡ over r
      → w.callers i ≡ waiting
      → w.callers j ≡ waiting
      → IsAnswered w (deliver ∷ []) i j
  over-IsAnswered w r i j k a b =
      let w' : World = record w { flight = idle; callers = λ i. offer r (w.callers i) } in
      let given : w'.callers i ≡ offered r = ap (offer r) a in
      (
        set_caller w' i (returned r),
        r,
        run-cons w w' deliver (receive i ∷ []) (step-deliver w r k) ∙ run-receive w' i r given,
        ground arith,
        ground (arith, ap (offer r) b),
      )

  after_fetch-over :
      (w : World) (stale : List Mod) (later : ℕ) (o : Result (List Mod))
      → (r : Reply) × ((after_fetch w stale later o).flight ≡ over r)
        × ((after_fetch w stale later o).callers ≡ w.callers)
  after_fetch-over w stale later (err e) = (fall_back stale e, refl, refl)
  after_fetch-over w stale later (ok items) = ((items, nil), refl, refl)

  running-IsAnswered :
      (w : World) (stale : List Mod) (later : ℕ) (rounds : ℕ → Round) (o : Result (List Mod))
      (i j : ℕ)
      → w.flight ≡ running stale
      → fetch_mods env w.client (list_operation env) (w.client.base_url ++ text "/mods") rounds
        ≡ some o
      → w.callers i ≡ waiting
      → w.callers j ≡ waiting
      → IsAnswered w (finish later rounds ∷ deliver ∷ []) i j
  running-IsAnswered w stale later rounds o i j k f a b =
      let (r, is_over, same) = after_fetch-over w stale later o in
      let next = after_fetch w stale later o in
      let (w', r', runs, mine, other) =
        over-IsAnswered next r i j is_over (rw same a) (rw same b) in
      (
        w',
        r',
        run-cons w next (finish later rounds) (deliver ∷ receive i ∷ [])
              (step-finish w stale later rounds o k f)
            ∙ runs,
        mine,
        other,
      )

  -- In every world that an interleaving reaches, whoever left and whoever started the flight: when
  -- its fetch returns, what is left of the flight runs to its end without a step of any caller, and
  -- the callers that wait get its reply, the same for all, which each can take at once.
  pub waiting-IsAnswered :
      (start : Client) (w : World) (later : ℕ) (rounds : ℕ → Round) (o : Result (List Mod))
      (i j : ℕ)
      → Reach env start w
      → fetch_mods env w.client (list_operation env) (w.client.base_url ++ text "/mods") rounds
        ≡ some o
      → w.callers i ≡ waiting
      → w.callers j ≡ waiting
      → IsAnswered w (rest_of w.flight later rounds) i j
  waiting-IsAnswered start w later rounds o i j h f a b = go w.flight refl
    where
      busy : is_idle w.flight ≡ false
      busy =
          let log = log_of env start h in
          (subst (Placed log w i) a ((Reach-IsSound env start w h).callers i)).0

      go : (x : Flight) → w.flight ≡ x → IsAnswered w (rest_of x later rounds) i j
      go idle k = absurd (ground (arith, busy, k))
      go (running stale) k = running-IsAnswered w stale later rounds o i j k f a b
      go (over r) k = over-IsAnswered w r i j k a b
