-- ===== src/Moddb/Answer/Arrivals.antt =====
-- moddb/client.go enrichPage: the results of the workers, taken from their channel in the order in
-- which they arrive.
pub mod Sequence
use vintagestory_go.Base.{
  ℕ, zero, suc, ◌==◌, ◌≡◌, refl, sym, ap, ◌∙◌, Bool, true, false, ◌&&◌, List, [], ◌∷◌,
  if◌then◌else◌, Bool-cases, inl, inr, arith,
}
use vintagestory_go.Vshttp.Errors.{Error, nil, is_nil}
use vintagestory_go.Vshttp.Json.{Result, ok, err}
use vintagestory_go.Moddb.Types.{Mod, ModDetails}
use vintagestory_go.Moddb.Answer.{Lookups, with_details}

-- The index of an item and the result of its lookup.
abbrev pub Arrival : Type 0
Arrival = ℕ × Result ModDetails

abbrev write_details : List Mod → ℕ → ModDetails → List Mod
write_details [] i d = []
write_details (m ∷ ms) zero d = with_details m d ∷ ms
write_details (m ∷ ms) (suc i) d = m ∷ write_details ms i d

unfoldable pub take_result : Lookups → Arrival → Lookups
take_result l (i, err e) = record l {
  failures = suc l.failures;
  first_err = if is_nil l.first_err then e else l.first_err;
}
take_result l (i, ok d) = record l { out = write_details l.out i d }

-- `for x := range results`
unfoldable pub collect_results : Lookups → List Arrival → Lookups
unfolding take_result
collect_results l [] = l
collect_results l (x ∷ xs) = collect_results (take_result l x) xs

-- out, failures and firstErr before the loop
abbrev pub unlooked : List Mod → Lookups
unlooked items = record { out = items; failures = 0; first_err = nil }

-- The same results in another order; two of the same item do not change places.
pub data Reordered : List Arrival → List Arrival → Type 0 where
  same : (xs : List Arrival) → Reordered xs xs
  swap :
      (x y : Arrival) (xs : List Arrival)
      → (x.0 == y.0) ≡ false
      → Reordered (x ∷ y ∷ xs) (y ∷ x ∷ xs)
  keep_first : (x : Arrival) {xs ys : List Arrival} → Reordered xs ys → Reordered (x ∷ xs) (x ∷ ys)
  compose : {xs ys zs : List Arrival} → Reordered xs ys → Reordered ys zs → Reordered xs zs

-- Equal but for which of the errors is the first one.
pub record Alike (l k : Lookups) : Type 0 where
  pub out : l.out ≡ k.out
  pub failures : l.failures ≡ k.failures
  pub failed : is_nil l.first_err ≡ is_nil k.first_err

Alike-refl : (l : Lookups) → Alike l l
Alike-refl l = record { out = refl; failures = refl; failed = refl }

Alike-trans : (l k j : Lookups) → Alike l k → Alike k j → Alike l j
Alike-trans l k j a b = record {
  out = a.out ∙ b.out;
  failures = a.failures ∙ b.failures;
  failed = a.failed ∙ b.failed;
}

write_details_comm :
    (ms : List Mod) (i j : ℕ) (d f : ModDetails)
    → (i == j) ≡ false
    → write_details (write_details ms i d) j f ≡ write_details (write_details ms j f) i d
write_details_comm [] i j d f h = refl
write_details_comm (m ∷ ms) zero zero d f h = absurd (ground (arith, h))
write_details_comm (m ∷ ms) zero (suc j) d f h = refl
write_details_comm (m ∷ ms) (suc i) zero d f h = refl
write_details_comm (m ∷ ms) (suc i) (suc j) d f h =
    ap (◌∷◌ m) (write_details_comm ms i j d f (ground (arith, h)))

first_failed : (a e : Error) → is_nil (if is_nil a then e else a) ≡ (is_nil a && is_nil e)
first_failed a e = elim (Bool-cases (is_nil a)) [ inl h ↦ rw h refl | inr h ↦ rw h h ]

and_swap : (a b c : Bool) → ((a && b) && c) ≡ ((a && c) && b)
and_swap true true true = refl
and_swap true true false = refl
and_swap true false true = refl
and_swap true false false = refl
and_swap false b c = refl

take_result-swap :
    (l : Lookups) (x y : Arrival)
    → (x.0 == y.0) ≡ false
    → Alike (take_result (take_result l x) y) (take_result (take_result l y) x)
unfolding take_result
take_result-swap l (i, ok d) (j, ok f) h = record {
  out = write_details_comm l.out i j d f h;
  failures = refl;
  failed = refl;
}
take_result-swap l (i, ok d) (j, err e) h = record { out = refl; failures = refl; failed = refl }
take_result-swap l (i, err e) (j, ok d) h = record { out = refl; failures = refl; failed = refl }
take_result-swap l (i, err e) (j, err k) h = record {
  out = refl;
  failures = refl;
  failed =
      let a = l.first_err in
      (first_failed (if is_nil a then e else a) k
        ∙ ap (λ (b : Bool). b && is_nil k) (first_failed a e))
      ∙ (and_swap (is_nil a) (is_nil e) (is_nil k)
          ∙ sym (
              first_failed (if is_nil a then k else a) e
              ∙ ap (λ (b : Bool). b && is_nil e) (first_failed a k)));
}

take_result-Alike :
    (l k : Lookups) (x : Arrival) → Alike l k → Alike (take_result l x) (take_result k x)
unfolding take_result
take_result-Alike l k (i, ok d) a = record {
  out = ap (λ (ms : List Mod). write_details ms i d) a.out;
  failures = a.failures;
  failed = a.failed;
}
take_result-Alike l k (i, err e) a = record {
  out = a.out;
  failures = ap suc a.failures;
  failed =
      first_failed l.first_err e
      ∙ (ap (λ (b : Bool). b && is_nil e) a.failed ∙ sym (first_failed k.first_err e));
}

collect_results-Alike :
    (l k : Lookups) (xs : List Arrival)
    → Alike l k
    → Alike (collect_results l xs) (collect_results k xs)
unfolding collect_results
collect_results-Alike l k [] a = a
collect_results-Alike l k (x ∷ xs) a =
    collect_results-Alike (take_result l x) (take_result k x) xs (take_result-Alike l k x a)

-- The order of arrival decides only which error is the first one.
pub collect_results-Reordered :
    (l : Lookups) (xs ys : List Arrival)
    → Reordered xs ys
    → Alike (collect_results l xs) (collect_results l ys)
unfolding collect_results
collect_results-Reordered l xs ys (same _) = Alike-refl (collect_results l xs)
collect_results-Reordered l xs ys (swap x y zs h) =
    collect_results-Alike (take_result (take_result l x) y) (take_result (take_result l y) x) zs
      (take_result-swap l x y h)
collect_results-Reordered l xs ys (keep_first x {xs = us} {ys = vs} r) =
    collect_results-Reordered (take_result l x) us vs r
collect_results-Reordered l xs ys (compose {ys = zs} r q) =
    Alike-trans (collect_results l xs) (collect_results l zs) (collect_results l ys)
      (collect_results-Reordered l xs zs r) (collect_results-Reordered l zs ys q)
