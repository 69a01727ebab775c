-- ===== src/Moddb/Client/Flights/Interleavings.antt =====
-- moddb/client.go list under concurrent calls: the replies of the interleavings.
use vintagestory_go.Base.{
  ℕ, ◌≡◌, ◌⊎◌, inl, inr, refl, subst, Option, none, some, List, [], ◌++◌, text, Bool-cases, arith,
}
use vintagestory_go.Vshttp.Errors.{Error, nil, is_nil}
use vintagestory_go.Vshttp.Do.{Round}
use vintagestory_go.Moddb.Types.{Mod}
use vintagestory_go.Moddb.Client.{Client, Env, Reply, fetch_mods, is_fresh, list_operation}
use vintagestory_go.Moddb.Client.Flights.{
  Status, away, waiting, ready, offered, returned, Flight, idle, running, over, World, Event, look,
  enter, finish, deliver, receive, cancel, leave, on_enter, after_fetch, on_fetch, on_deliver,
  on_receive, on_cancel, on_done, on_leave, on_look, on_finish, step, Reach, here, next,
}
use vintagestory_go.Moddb.Client.Flights.Log.{
  Outcome, Log, note_fetch, note_enter, note_look, note_delivery, fetched, note, log_of, IsLatest,
  IsServed, IsLeft,
}
use vintagestory_go.Moddb.Client.Flights.Invariant.{Placed, IsDone, IsSound}
use vintagestory_go.Moddb.Client.Flights.Steps.{
  IsLatest-latest, IsLatest-IsHit, Covers-self, moved, looked, ended-IsSound, entered-IsSound,
  fetched-IsSound, delivered-IsSound,
}

module _ (env : Env) (start : Client) where
  equal-IsSound :
      (log : Log) (w w' : World) → some w ≡ some w' → IsSound start log w → IsSound start log w'
  equal-IsSound log w w' h v = subst (IsSound start log) (let e : w ≡ w' = ground (arith, h) in e) v

  callers-Placed :
      (log : Log) (w : World) (i : ℕ) (s : Status)
      → IsSound start log w
      → w.callers i ≡ s
      → Placed log w i s
  callers-Placed log w i s v k = subst (Placed log w i) k (v.callers i)

  on_look-IsSound :
      (log : Log) (w w' : World) (i now : ℕ) (s : Status)
      → IsSound start log w
      → on_look env w i now s ≡ some w'
      → IsSound start (note_look log i now) w'
  unfolding on_look
  on_look-IsSound log w w' i now away v h = elim (Bool-cases (is_fresh env w.client now)) [
    | inl e ↦ equal-IsSound (note_look log i now) _ w' (rw e at h) (
        looked start log w i now (returned (w.client.catalog, nil)) v
          (inl (inl (IsLatest-IsHit env log.catalogs w.client now v.cached e))))
    | inr e ↦ equal-IsSound (note_look log i now) _ w' (rw e at h) (
        looked start log w i now (ready w.client.catalog) v
          (IsLatest-latest log.catalogs w.client v.cached, Covers-self log.pending))
  ]
  on_look-IsSound log w w' i now waiting v h = cc
  on_look-IsSound log w w' i now (ready stale) v h = cc
  on_look-IsSound log w w' i now (offered r) v h = cc
  on_look-IsSound log w w' i now (returned r) v h = cc

  on_enter-IsSound :
      (log : Log) (w w' : World) (i : ℕ) (s : Status)
      → IsSound start log w
      → w.callers i ≡ s
      → on_enter w i s ≡ some w'
      → IsSound start (note_enter log i) w'
  unfolding on_enter
  on_enter-IsSound log w w' i (ready stale) v k h =
      equal-IsSound (note_enter log i) _ w' h (entered-IsSound start log w i stale v k)
  on_enter-IsSound log w w' i away v k h = cc
  on_enter-IsSound log w w' i waiting v k h = cc
  on_enter-IsSound log w w' i (offered r) v k h = cc
  on_enter-IsSound log w w' i (returned r) v k h = cc

  -- The client of a world fetches as the one of the start does.
  fetch_mods-same :
      (c : Client) (rounds : ℕ → Round)
      → (c.base_url ≡ start.base_url) × (c.retry ≡ start.retry)
      → fetch_mods env c (list_operation env) (c.base_url ++ text "/mods") rounds
        ≡ fetched env start rounds
  unfolding fetch_mods
  fetch_mods-same c rounds (url, retry) = rw (url, retry) refl

  on_fetch-IsSound :
      (log : Log) (w w' : World) (stale : List Mod) (later : ℕ) (o : Option Outcome)
      → IsSound start log w
      → w.flight ≡ running stale
      → on_fetch w stale later o ≡ some w'
      → IsSound start (note_fetch log later o) w'
  unfolding on_fetch
  on_fetch-IsSound log w w' stale later none v k h = cc
  on_fetch-IsSound log w w' stale later (some o) v k h =
      equal-IsSound (note_fetch log later (some o)) (after_fetch w stale later o) w' h
        (fetched-IsSound start log w stale later o v k)

  on_finish-IsSound :
      (log : Log) (w w' : World) (later : ℕ) (rounds : ℕ → Round) (f : Flight)
      → IsSound start log w
      → w.flight ≡ f
      → on_finish env w later rounds f ≡ some w'
      → IsSound start (note_fetch log later (fetched env start rounds)) w'
  unfolding on_finish
  on_finish-IsSound log w w' later rounds (running stale) v k h =
      subst (λ (o : Option Outcome). IsSound start (note_fetch log later o) w')
        (fetch_mods-same w.client rounds v.same) (on_fetch-IsSound log w w' stale later _ v k h)
  on_finish-IsSound log w w' later rounds idle v k h = cc
  on_finish-IsSound log w w' later rounds (over r) v k h = cc

  on_deliver-IsSound :
      (log : Log) (w w' : World) (f : Flight)
      → IsSound start log w
      → w.flight ≡ f
      → on_deliver w f ≡ some w'
      → IsSound start (note_delivery log) w'
  unfolding on_deliver
  on_deliver-IsSound log w w' (over r) v k h =
      equal-IsSound (note_delivery log) _ w' h (delivered-IsSound start log w r v k)
  on_deliver-IsSound log w w' idle v k h = cc
  on_deliver-IsSound log w w' (running stale) v k h = cc

  on_receive-IsSound :
      (log : Log) (w w' : World) (i : ℕ) (s : Status)
      → IsSound start log w
      → w.callers i ≡ s
      → on_receive w i s ≡ some w'
      → IsSound start log w'
  unfolding on_receive
  on_receive-IsSound log w w' i (offered r) v k h =
      equal-IsSound log _ w' h
        (moved start log w i (returned r) v (inl (callers-Placed log w i (offered r) v k)))
  on_receive-IsSound log w w' i away v k h = cc
  on_receive-IsSound log w w' i waiting v k h = cc
  on_receive-IsSound log w w' i (ready stale) v k h = cc
  on_receive-IsSound log w w' i (returned r) v k h = cc

  on_cancel-IsSound :
      (log : Log) (w w' : World) (i : ℕ) (e : Error) (x : Option Error)
      → IsSound start log w
      → w.contexts i ≡ x
      → on_cancel w i e x ≡ some w'
      → IsSound start log w'
  unfolding on_cancel
  on_cancel-IsSound log w w' i e none v k h = elim (Bool-cases (is_nil e)) [
    | inl n ↦ absurd (ground (arith, rw n at h))
    | inr n ↦ equal-IsSound log _ w' (rw n at h) (ended-IsSound start log w i e v k n)
  ]
  on_cancel-IsSound log w w' i e (some x) v k h = cc

  on_done-IsSound :
      (log : Log) (w w' : World) (i : ℕ) (x : Option Error)
      → IsSound start log w
      → w.contexts i ≡ x
      → on_done w i x ≡ some w'
      → IsSound start log w'
  unfolding on_done
  on_done-IsSound log w w' i (some e) v k h =
      equal-IsSound log _ w' h
        (moved start log w i (returned ([], e)) v (inr (e, k, subst (IsDone) k (v.done i), refl)))
  on_done-IsSound log w w' i none v k h = cc

  on_leave-IsSound :
      (log : Log) (w w' : World) (i : ℕ) (s : Status)
      → IsSound start log w
      → on_leave w i s ≡ some w'
      → IsSound start log w'
  unfolding on_leave
  on_leave-IsSound log w w' i waiting v h = on_done-IsSound log w w' i (w.contexts i) v refl h
  on_leave-IsSound log w w' i (offered r) v h = on_done-IsSound log w w' i (w.contexts i) v refl h
  on_leave-IsSound log w w' i away v h = cc
  on_leave-IsSound log w w' i (ready stale) v h = cc
  on_leave-IsSound log w w' i (returned r) v h = cc

  step-IsSound :
      (log : Log) (w w' : World) (e : Event)
      → IsSound start log w
      → step env w e ≡ some w'
      → IsSound start (note env start log e) w'
  unfolding step note
  step-IsSound log w w' (look i now) v h = on_look-IsSound log w w' i now (w.callers i) v h
  step-IsSound log w w' (enter i) v h = on_enter-IsSound log w w' i (w.callers i) v refl h
  step-IsSound log w w' (finish later rounds) v h =
      on_finish-IsSound log w w' later rounds w.flight v refl h
  step-IsSound log w w' deliver v h = on_deliver-IsSound log w w' w.flight v refl h
  step-IsSound log w w' (receive i) v h = on_receive-IsSound log w w' i (w.callers i) v refl h
  step-IsSound log w w' (cancel i e) v h = on_cancel-IsSound log w w' i e (w.contexts i) v refl h
  step-IsSound log w w' (leave i) v h = on_leave-IsSound log w w' i (w.callers i) v h

  pub Reach-IsSound : (w : World) → (h : Reach env start w) → IsSound start (log_of env start h) w
  unfolding log_of
  Reach-IsSound w here = record {
    same = (refl, refl);
    cached = refl;
    flight = refl;
    done = λ i. tt;
    callers = λ i. tt;
  }
  Reach-IsSound w (next r e h) = step-IsSound (log_of env start r) _ w e (Reach-IsSound _ r) h

  -- In every interleaving of calls of list on one client, a caller gets a reply that an observer of the
  -- events expects, or the error of its own context, which is done. The observer expects a catalog that
  -- a fetch gave less than ten minutes before the look of the caller, or the answer to a fetch whose
  -- flight was not handed out at that look or later: its catalog without an error, or, if it failed,
  -- the catalog that was the last one at the look of the caller that started the flight, with an error
  -- that matches ErrStale, and the failure alone if there was none. At all times the cache is the
  -- catalog of the last fetch that gave one.
  pub returned-IsServed :
      (w : World) (i : ℕ) (r : Reply) (h : Reach env start w)
      → w.callers i ≡ returned r
      → let log = log_of env start h in
        (IsServed log.catalogs (log.callers i) r ⊎ IsLeft (w.contexts i) r)
        × IsLatest log.catalogs w.client
  returned-IsServed w i r h k =
      let sound = Reach-IsSound w h in
      (callers-Placed (log_of env start h) w i (returned r) sound k, sound.cached)
