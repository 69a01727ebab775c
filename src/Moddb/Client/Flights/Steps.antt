-- ===== src/Moddb/Client/Flights/Steps.antt =====
-- moddb/client.go list under concurrent calls: each step keeps the invariant.
use vintagestory_go.Base.{
  ℕ, ◌==◌, ◌≡◌, ==_iff, inl, inr, refl, sym, ap, ◌∙◌, subst, Bool, true, false, Option, none, some,
  List, [], ◌∷◌, In, Bool-cases, arith,
}
use vintagestory_go.Vshttp.Errors.{Error, nil, is_nil}
use vintagestory_go.Vshttp.Json.{ok, err}
use vintagestory_go.Moddb.Types.{Mod}
use vintagestory_go.Moddb.Client.{Client, Env, Reply, fall_back, is_fresh}
use vintagestory_go.Moddb.Client.Flights.{
  Status, away, waiting, ready, offered, returned, Flight, idle, running, over, World, set_caller,
  end_context, is_idle, join_flight, after_fetch, offer,
}
use vintagestory_go.Moddb.Client.Flights.Log.{
  Outcome, Given, Memory, Log, latest, stale_of, started, IsFallBack, note_enter, note_outcome,
  note_look, note_delivery, IsLatest, IsAnswer, IsHit,
}
use vintagestory_go.Moddb.Client.Flights.Invariant.{
  Past, IsFlying, IsPlaced, Placed, Covers, IsSound, IsPlaced-gained, IsPlaced-busy, IsPlaced-ended,
  fall_back-IsFallBack,
}

pub IsLatest-latest : (past : Past) (c : Client) → IsLatest past c → c.catalog ≡ latest past
IsLatest-latest [] c e = e
IsLatest-latest (x ∷ past) c (e, t) = e

pub IsLatest-IsHit :
    (env : Env) (past : Past) (c : Client) (now : ℕ)
    → IsLatest past c
    → is_fresh env c now ≡ true
    → IsHit past (some now) (c.catalog, nil)
IsLatest-IsHit env [] c now e h = absurd (ground (arith, rw e at h))
IsLatest-IsHit env (x ∷ past) c now (e, t) h = record {
  now = now;
  items = c.catalog;
  at = c.catalog_at;
  looked = refl;
  source = inl (ground (arith, e, t));
  present = λ n. absurd (ground (arith, rw n at h));
  fresh = ground (arith, h);
  reply = refl;
}

Covers-from : (xs ys : List Given) → ((o : Given) → In o xs → In o ys) → Covers ys xs
Covers-from [] ys f = tt
Covers-from (x ∷ xs) ys f = (f x (inl refl), Covers-from xs ys (λ o m. f o (inr m)))

pub Covers-self : (xs : List Given) → Covers xs xs
Covers-self xs = Covers-from xs xs (λ o m. m)

module _ (start : Client) where
  pub moved :
      (log : Log) (w : World) (i : ℕ) (s : Status)
      → IsSound start log w
      → Placed log w i s
      → IsSound start log (set_caller w i s)
  moved log w i s v p = record {
    same = v.same;
    cached = v.cached;
    flight = v.flight;
    done = v.done;
    callers = λ j. elim (Bool-cases (j == i)) [
      | inl e ↦
          let here : j ≡ i = (==_iff j i).0 e in
          rw e (subst (λ (k : ℕ). Placed log w k s) (sym here) p)
      | inr e ↦ rw e (v.callers j)
    ];
  }

  pub looked :
      (log : Log) (w : World) (i now : ℕ) (s : Status)
      → IsSound start log w
      → IsPlaced log.catalogs log.pending
          (is_idle w.flight)
          (w.contexts i)
          (record { asked = some now; held = latest log.catalogs; seen = log.pending })
          s
      → IsSound start (note_look log i now) (set_caller w i s)
  looked log w i now s v p = record {
    same = v.same;
    cached = v.cached;
    flight = flying w.flight v.flight;
    done = v.done;
    callers = λ j. elim (Bool-cases (j == i)) [
      | inl e ↦
          let here : j ≡ i = (==_iff j i).0 e in
          rw e (
            subst
              (λ (k : ℕ).
                IsPlaced log.catalogs log.pending (is_idle w.flight) (w.contexts k)
                  (record { asked = some now; held = latest log.catalogs; seen = log.pending }) s)
              (sym here) p)
      | inr e ↦ rw e (v.callers j)
    ];
  }
    where
      flying : (f : Flight) → IsFlying log f → IsFlying (note_look log i now) f
      flying idle k = k
      flying (running stale) k = k
      flying (over r) k = k

  pub ended-IsSound :
      (log : Log) (w : World) (i : ℕ) (e : Error)
      → IsSound start log w
      → w.contexts i ≡ none
      → is_nil e ≡ false
      → IsSound start log (end_context w i e)
  ended-IsSound log w i e v k n = record {
    same = v.same;
    cached = v.cached;
    flight = v.flight;
    done = λ j. elim (Bool-cases (j == i)) [ inl h ↦ rw h n | inr h ↦ rw h (v.done j) ];
    callers = λ j. elim (Bool-cases (j == i)) [
      | inl h ↦
          let here : j ≡ i = (==_iff j i).0 h in
          rw h (
            IsPlaced-ended log.catalogs log.pending (is_idle w.flight) (w.contexts j) (some e)
              (log.callers j) (w.callers j) (ap w.contexts here ∙ k) (v.callers j))
      | inr h ↦ rw h (v.callers j)
    ];
  }

  pub fetched-IsSound :
      (log : Log) (w : World) (stale : List Mod) (later : ℕ) (o : Outcome)
      → IsSound start log w
      → w.flight ≡ running stale
      → IsSound start (note_outcome log later o) (after_fetch w stale later o)
  fetched-IsSound log w stale later (err e) v k = record {
    same = v.same;
    cached = v.cached;
    flight =
        let same = subst (IsFlying log) k v.flight in
        (
          (stale, same),
          (
            (err e, stale_of log.flying),
            refl,
            subst (λ (x : List Mod). IsFallBack x e (fall_back stale e)) (sym (ap stale_of same))
                (fall_back-IsFallBack stale e),
          ),
        );
    done = v.done;
    callers = λ i.
        IsPlaced-gained later (err e) (err e, stale_of log.flying) log.catalogs log.pending
          (is_idle w.flight) (w.contexts i) (log.callers i) (w.callers i) (v.callers i);
  }
  fetched-IsSound log w stale later (ok items) v k = record {
    same = v.same;
    cached = (refl, refl);
    flight =
        ((stale, subst (IsFlying log) k v.flight), ((ok items, stale_of log.flying), refl, refl));
    done = v.done;
    callers = λ i.
        IsPlaced-gained later (ok items) (ok items, stale_of log.flying) log.catalogs log.pending
          (is_idle w.flight) (w.contexts i) (log.callers i) (w.callers i) (v.callers i);
  }

  join-IsFlying :
      (log : Log) (i : ℕ) (stale : List Mod) (f : Flight)
      → stale ≡ (log.callers i).held
      → IsFlying log f
      → IsFlying (note_enter log i) (join_flight stale f) × (is_idle (join_flight stale f) ≡ false)
  join-IsFlying log i stale idle p q = (ap (started (log.callers i).held) q ∙ ap some (sym p), refl)
  join-IsFlying log i stale (running s) p q = (ap (started (log.callers i).held) q, refl)
  join-IsFlying log i stale (over r) p ((s, q), g) =
      (((s, ap (started (log.callers i).held) q), g), refl)

  pub entered-IsSound :
      (log : Log) (w : World) (i : ℕ) (stale : List Mod)
      → IsSound start log w
      → w.callers i ≡ ready stale
      → IsSound start
          (note_enter log i)
          (record (set_caller w i waiting) { flight = join_flight stale w.flight })
  entered-IsSound log w i stale v k =
      let (held, covered) = subst (Placed log w i) k (v.callers i) in
      let (flying, busy) = join-IsFlying log i stale w.flight held v.flight in
      let joined : World = record w { flight = join_flight stale w.flight } in
      let sound : IsSound start (note_enter log i) joined = record {
        same = v.same;
        cached = v.cached;
        flight = flying;
        done = v.done;
        callers = λ j.
            IsPlaced-busy log.catalogs log.pending (is_idle w.flight)
              (is_idle (join_flight stale w.flight)) (w.contexts j) (log.callers j) (w.callers j)
              busy (v.callers j);
      } in
      moved (note_enter log i) joined i waiting sound (busy, covered)

  offered_after :
      (past : Past) (pending : List Given) (b : Bool) (x : Option Error) (m : Memory) (g : Given)
      (r : Reply) (s : Status)
      → pending ≡ g ∷ []
      → IsAnswer g r
      → IsPlaced past pending b x m s
      → IsPlaced past [] true x m (offer r s)
  offered_after past pending b x m g r away e a p = tt
  offered_after past pending b x m g r waiting e a (_, c) =
      inr (g, (subst (Covers m.seen) e c).0, a)
  offered_after past pending b x m g r (ready stale) e a (p, _) = (p, tt)
  offered_after past pending b x m g r (offered s) e a p = p
  offered_after past pending b x m g r (returned s) e a p = p

  pub delivered-IsSound :
      (log : Log) (w : World) (r : Reply)
      → IsSound start log w
      → w.flight ≡ over r
      → IsSound start
          (note_delivery log)
          (record w { flight = idle; callers = λ i. offer r (w.callers i) })
  delivered-IsSound log w r v k =
      let (_, (g, e, a)) = subst (IsFlying log) k v.flight in
      record {
        same = v.same;
        cached = v.cached;
        flight = refl;
        done = v.done;
        callers = λ i.
            offered_after log.catalogs log.pending (is_idle w.flight) (w.contexts i) (log.callers i)
              g r (w.callers i) e a (v.callers i);
      }
