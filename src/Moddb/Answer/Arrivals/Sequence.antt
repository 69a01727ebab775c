-- ===== src/Moddb/Answer/Arrivals/Sequence.antt =====
-- moddb/client.go enrichPage: the results of the workers, against the lookups in the order of the
-- items.
use vintagestory_go.Base.{
  ℕ, suc, ◌+◌, ◌≡◌, refl, sym, ap, ◌∙◌, Option, none, some, List, [], ◌∷◌, map, length,
  if◌then◌else◌, arith,
}
use vintagestory_go.Vshttp.Errors.{Error, nil, is_nil}
use vintagestory_go.Vshttp.Json.{Result, ok, err}
use vintagestory_go.Moddb.Types.{Mod, ModDetails}
use vintagestory_go.Moddb.Client.{Client, Env}
use vintagestory_go.Moddb.Client.Details.{get_mod}
use vintagestory_go.Moddb.Answer.{
  Visit, Lookups, with_details, join_lookup, join_visit, enrich_from,
}
use vintagestory_go.Moddb.Answer.Arrivals.{
  Arrival, take_result, collect_results, unlooked, Reordered, Alike, collect_results-Reordered,
}

shifted : Arrival → Arrival
shifted (i, r) = (suc i, r)

-- The results in the order of the items.
unfoldable pub numbered : List (Result ModDetails) → List Arrival
unfolding shifted
numbered [] = []
numbered (r ∷ rs) = (0, r) ∷ map shifted (numbered rs)

abbrev after_item : Mod → Lookups → Lookups
after_item m l = record l { out = m ∷ l.out }

take_result-shifted :
    (m : Mod) (l : Lookups) (x : Arrival)
    → take_result (after_item m l) (shifted x) ≡ after_item m (take_result l x)
unfolding take_result shifted
take_result-shifted m l (i, ok d) = refl
take_result-shifted m l (i, err e) = refl

collect_results-shifted :
    (m : Mod) (l : Lookups) (xs : List Arrival)
    → collect_results (after_item m l) (map shifted xs) ≡ after_item m (collect_results l xs)
unfolding collect_results
collect_results-shifted m l [] = refl
collect_results-shifted m l (x ∷ xs) =
    ap (λ (k : Lookups). collect_results k (map shifted xs)) (take_result-shifted m l x)
    ∙ collect_results-shifted m (take_result l x) xs

-- The lookups of the model, joined in the order of the items.
join_all : List Mod → List (Result ModDetails) → Lookups
unfolding join_lookup
join_all [] rs = record { out = []; failures = 0; first_err = nil }
join_all (m ∷ ms) [] = record { out = m ∷ ms; failures = 0; first_err = nil }
join_all (m ∷ ms) (r ∷ rs) = join_lookup m r (join_all ms rs)

abbrev joined_after : ℕ → Error → Lookups → Lookups
joined_after f e l = record l {
  failures = f + l.failures;
  first_err = if is_nil e then l.first_err else e;
}

abbrev started : List Mod → ℕ → Error → Lookups
started ms f e = record { out = ms; failures = f; first_err = e }

joined_after_err :
    (f : ℕ) (a e : Error) (m : Mod) (l : Lookups)
    → after_item m (joined_after (suc f) (if is_nil a then e else a) l)
      ≡ joined_after f a (join_lookup m (err e) l)
unfolding join_lookup
joined_after_err f a e m l = ground arith

joined_after_ok :
    (f : ℕ) (a : Error) (m : Mod) (d : ModDetails) (l : Lookups)
    → after_item (with_details m d) (joined_after f a l) ≡ joined_after f a (join_lookup m (ok d) l)
unfolding join_lookup
joined_after_ok f a m d l = refl

collect_results-numbered :
    (ms : List Mod) (rs : List (Result ModDetails)) (f : ℕ) (a : Error)
    → length rs ≡ length ms
    → collect_results (started ms f a) (numbered rs) ≡ joined_after f a (join_all ms rs)
unfolding collect_results numbered join_all take_result
collect_results-numbered [] [] f a h = ground arith
collect_results-numbered [] (r ∷ rs) f a h = absurd (omega (arith, h))
collect_results-numbered (m ∷ ms) [] f a h = absurd (omega (arith, h))
collect_results-numbered (m ∷ ms) (ok d ∷ rs) f a h =
    collect_results-shifted (with_details m d) (started ms f a) (numbered rs)
    ∙ (ap (after_item (with_details m d)) (collect_results-numbered ms rs f a (omega (arith, h)))
        ∙ joined_after_ok f a m d (join_all ms rs))
collect_results-numbered (m ∷ ms) (err e ∷ rs) f a h =
    let e' = if is_nil a then e else a in
    collect_results-shifted m (started ms (suc f) e') (numbered rs)
    ∙ (ap (after_item m) (collect_results-numbered ms rs (suc f) e' (omega (arith, h)))
        ∙ joined_after_err f a e m (join_all ms rs))

Alike-after : (l k j : Lookups) → l ≡ j → Alike l k → Alike k j
Alike-after l k j e a = record {
  out = sym a.out ∙ ap (λ (x : Lookups). x.out) e;
  failures = sym a.failures ∙ ap (λ (x : Lookups). x.failures) e;
  failed = sym a.failed ∙ ap (λ (x : Lookups). is_nil x.first_err) e;
}

module _ (env : Env) (visits : ℕ → Visit) where
  abbrev add_result :
      Result ModDetails
      → Option (Client × List (Result ModDetails))
      → Option (Client × List (Result ModDetails))
  add_result r none = none
  add_result r (some (c, rs)) = some (c, r ∷ rs)

  -- The results of the lookups of the items, one after the other.
  unfoldable pub lookups_of : ℕ → Client → List Mod → Option (Client × List (Result ModDetails))
  lookups_of i c [] = some (c, [])
  lookups_of i c (m ∷ ms) =
      elim (get_mod env c m.id (visits i).now (visits i).later (visits i).interrupt
        (visits i).rounds) [ none ↦ none | some (c', r) ↦ add_result r (lookups_of (suc i) c' ms) ]

  abbrev IsJoined : ℕ → Client → List Mod → Client → List (Result ModDetails) → Type 0
  IsJoined i c items c' rs =
      (enrich_from env visits i c items ≡ some (c', join_all items rs)) × (length rs ≡ length items)

  abbrev get_mod_at : ℕ → Client → Mod → Option (Client × Result ModDetails)
  get_mod_at i c m =
      get_mod env c m.id (visits i).now (visits i).later (visits i).interrupt (visits i).rounds

  enrich_from-IsJoined :
      (items : List Mod) (i : ℕ) (c c' : Client) (rs : List (Result ModDetails))
      → lookups_of i c items ≡ some (c', rs)
      → IsJoined i c items c' rs
  unfolding lookups_of enrich_from join_visit join_all
  enrich_from-IsJoined [] i c c' rs h =
      let (m, n) : (c ≡ c') × ([] ≡ rs) = ground (arith, h) in rw (← m, ← n) (refl, refl)
  enrich_from-IsJoined (m ∷ ms) i c c' rs h =
      looked (get_mod_at i c m) refl (λ c1. enrich_from-IsJoined ms (suc i) c1)
    where
      after_look :
          (c1 : Client) (r : Result ModDetails) (o : Option (Client × List (Result ModDetails)))
          → lookups_of (suc i) c1 ms ≡ o
          → get_mod_at i c m ≡ some (c1, r)
          → add_result r o ≡ some (c', rs)
          → ((c2 : Client) (ss : List (Result ModDetails))
              → lookups_of (suc i) c1 ms ≡ some (c2, ss)
              → IsJoined (suc i) c1 ms c2 ss)
          → IsJoined i c (m ∷ ms) c' rs
      after_look c1 r none e g k ih = cc
      after_look c1 r (some (c2, ss)) e g k ih =
          let (joined, long) = ih c2 ss e in
          let (p, q) : (c2 ≡ c') × (r ∷ ss ≡ rs) = ground (arith, k) in
          rw (← p, ← q) (rw (enrich_from, g) (rw joined refl), ap suc long)

      looked :
          (o : Option (Client × Result ModDetails))
          → get_mod_at i c m ≡ o
          → ((c1 c2 : Client) (ss : List (Result ModDetails))
              → lookups_of (suc i) c1 ms ≡ some (c2, ss)
              → IsJoined (suc i) c1 ms c2 ss)
          → IsJoined i c (m ∷ ms) c' rs
      looked none g ih = absurd (ground (arith, rw (lookups_of, g) at h))
      looked (some (c1, r)) g ih =
          after_look c1 r (lookups_of (suc i) c1 ms) refl g (rw (lookups_of, g) at h) (ih c1)

  -- If the lookups of a page end, one after the other, with the results `rs`, then the results that
  -- arrive in any other order give the same page, the same number of failures and an error in the
  -- same cases as enrichPage in the order of the items; only the error that it names may differ.
  pub collect_results-enrich :
      (items : List Mod) (c c' : Client) (rs : List (Result ModDetails)) (xs : List Arrival)
      → lookups_of 0 c items ≡ some (c', rs)
      → Reordered (numbered rs) xs
      → (l : Lookups) × (enrich_from env visits 0 c items ≡ some (c', l))
        × Alike (collect_results (unlooked items) xs) l
  collect_results-enrich items c c' rs xs h r =
      let (joined, long) = enrich_from-IsJoined items 0 c c' rs h in
      let in_order = collect_results-numbered items rs 0 nil long in
      let moved = collect_results-Reordered (unlooked items) (numbered rs) xs r in
      let whole : joined_after 0 nil (join_all items rs) ≡ join_all items rs = ground arith in
      (
        join_all items rs,
        joined,
        Alike-after (collect_results (unlooked items) (numbered rs))
            (collect_results (unlooked items) xs) (join_all items rs) (in_order ∙ whole) moved,
      )
