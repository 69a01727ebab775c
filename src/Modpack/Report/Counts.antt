-- ===== src/Modpack/Report/Counts.antt =====
-- modpack/modpack.go summarize and Analyze: how entries are counted.
use vintagestory_go.Base.{
  ℕ, suc, ◌+◌, ◌≤◌, ◌≡◌, refl, ◌≢◌, ◌⊎◌, inl, inr, not, ◌||◌, Option, none, some, List, [], ◌∷◌,
  Text, is_empty, arith, Bool-cases, All, length,
}
use vintagestory_go.Vshttp.Errors.{Error}
use vintagestory_go.Vshttp.Json.{Result, ok, err}
use vintagestory_go.Modpack.Semver.{Semver}
use vintagestory_go.Modpack.Types.{
  ModInstall, Build, ModStatus, update_available, not_updatable, up_to_date, unknown,
  NotUpdatableReason, no_reason, local_mod, not_in_catalog, catalog_error, ModUpdate, Summary,
  Report, ModVersion, ModInfo,
}
use vintagestory_go.Modpack.Select.{select_target_version}
use vintagestory_go.Modpack.Report.{
  offer, look_up, refusal, analyze_mod, count_refusal, count_status, count_from, summarize, analyze,
}
use vintagestory_go.Modpack.Report.Laws.{Entries, analyze-Analyzed}

-- The counted entries of a summary.
abbrev pub counted : Summary → ℕ
counted s =
    s.up_to_date + s.updates_available + s.not_updatable_local + s.not_updatable_absent
    + s.not_updatable_catalog_error

-- An entry with a verdict: its status is known, and a mod that is not updatable has a reason.
abbrev pub HasVerdict : ModUpdate → Type 0
HasVerdict u =
    (u.status ≡ up_to_date)
    ⊎ ((u.status ≡ update_available) ⊎ ((u.status ≡ not_updatable) × (u.reason ≢ no_reason)))

count_refusal-counted :
    (r : NotUpdatableReason) (s : Summary)
    → r ≢ no_reason
    → (counted (count_refusal r s) ≡ suc (counted s))
      × ((count_refusal r s).incompatible ≡ s.incompatible)
      × ((count_refusal r s).updates_available ≡ s.updates_available)
      × ((count_refusal r s).total_mods ≡ s.total_mods)
unfolding count_refusal
count_refusal-counted no_reason s h = absurd (h refl)
count_refusal-counted local_mod s h = (omega arith, refl, refl, refl)
count_refusal-counted not_in_catalog s h = (omega arith, refl, refl, refl)
count_refusal-counted catalog_error s h = (omega arith, refl, refl, refl)

abbrev Fits : Summary → Type 0
Fits s = s.incompatible ≤ s.updates_available

count_status-counted :
    (t : ModStatus) (u : ModUpdate) (s : Summary)
    → u.status ≡ t
    → HasVerdict u
    → Fits s
    → (counted (count_status t u s) ≡ suc (counted s))
      × Fits (count_status t u s)
      × ((count_status t u s).total_mods ≡ s.total_mods)
unfolding count_status
count_status-counted up_to_date u s e v f = (omega arith, f, refl)
count_status-counted update_available u s e v f = (ground arith, ground arith, refl)
count_status-counted not_updatable u s e v f =
    let (one, inc, upd, tot) = count_refusal-counted u.reason s (λ r. ground (arith, e, v, r)) in
    (one, omega (arith, inc, upd, f), tot)
count_status-counted unknown u s e v f = absurd (ground (arith, e, v))

count_from-counted :
    (us : List ModUpdate) (s : Summary)
    → All HasVerdict us
    → Fits s
    → (counted (count_from s us) ≡ counted s + length us)
      × Fits (count_from s us)
      × ((count_from s us).total_mods ≡ s.total_mods)
unfolding count_from
count_from-counted [] s h f = (omega arith, f, refl)
count_from-counted (u ∷ us) s (v, h) f =
    let (one, fits, tot) = count_status-counted u.status u s refl v f in
    let (rest, fits', tot') = count_from-counted us (count_status u.status u s) h fits in
    (omega (arith, one, rest), fits', omega (arith, tot, tot'))

-- The total of a summary is split among the five verdicts, and only offered updates can be
-- incompatible.
pub record IsComplete (s : Summary) (n : ℕ) : Type 0 where
  pub total : s.total_mods ≡ n
  pub split : s.total_mods ≡ counted s
  pub within : s.incompatible ≤ s.updates_available

summarize-IsComplete :
    (us : List ModUpdate) → All HasVerdict us → IsComplete (summarize us) (length us)
unfolding summarize
summarize-IsComplete us h =
    let (all, fits, tot) = count_from-counted us _ h (omega arith) in
    record { total = tot; split = omega (arith, all, tot); within = fits }

module _ (s : Semver) where
  look_up-HasVerdict :
      (m : ModInstall) (game : Text) (installed : List Text) (r : Result ModInfo)
      → HasVerdict (look_up s m game installed r)
  unfolding look_up refusal
  look_up-HasVerdict m game installed (err e) = inr (inr (refl, λ e. cc))
  look_up-HasVerdict m game installed (ok info) = elim (Bool-cases (is_empty info.id)) [
    | inl h ↦ rw h (inr (inr (refl, λ e. cc)))
    | inr h ↦ rw h (offered (select_target_version s info m.version))
  ]
    where
      offered : (o : Option ModVersion) → HasVerdict (offer s m game installed o)
      offered none = unfold offer in inl refl
      offered (some t) = unfold offer in inr (inl refl)

  analyze_mod-HasVerdict :
      (m : ModInstall) (game : Text) (installed : List Text) (get : Text → Result ModInfo)
      → HasVerdict (analyze_mod s m game installed get)
  unfolding analyze_mod refusal
  analyze_mod-HasVerdict m game installed get =
      elim (Bool-cases (not m.managed || is_empty m.mod_id)) [
        | inl e ↦ rw e (inr (inr (refl, λ e. cc)))
        | inr e ↦ rw e (look_up-HasVerdict m game installed (get m.mod_id))
      ]

  module _ (ctx_err : ℕ → Error) (get : ℕ → Text → Result ModInfo) where
    Entries-HasVerdict :
        (game : Text) (installed : List Text) (i : ℕ) (ms : List ModInstall) (us : List ModUpdate)
        → Entries s ctx_err get game installed i ms us
        → All HasVerdict us × (length us ≡ length ms)
    Entries-HasVerdict game installed i [] [] h = (tt, refl)
    Entries-HasVerdict game installed i [] (u ∷ us) h = absurd h
    Entries-HasVerdict game installed i (m ∷ ms) [] h = absurd h
    Entries-HasVerdict game installed i (m ∷ ms) (u ∷ us) (_, e, h) =
        let (verdicts, len) = Entries-HasVerdict game installed (suc i) ms us h in
        ((rw e (analyze_mod-HasVerdict m game installed (get i)), verdicts), omega (arith, len))

    pub analyze-IsComplete :
        (build : Build) (r : Report)
        → analyze s ctx_err get build ≡ ok r
        → IsComplete r.summary (length build.mods)
    analyze-IsComplete build r e =
        let (_, entries, summed) = rw e at (analyze-Analyzed s ctx_err get build) in
        let (verdicts, len) = Entries-HasVerdict build.game_version _ 0 build.mods r.mods entries in
        rw (summed, ← len) (summarize-IsComplete r.mods verdicts)
