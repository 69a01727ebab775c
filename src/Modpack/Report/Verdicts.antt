-- ===== src/Modpack/Report/Verdicts.antt =====
-- modpack/modpack.go Analyze: what each entry of a report says of its mod.
use vintagestory_go.Base.{
  ℕ, suc, ◌<◌, ◌≡◌, ◌⊎◌, inl, inr, refl, true, false, not, ◌||◌, Option, none, some, List, [], ◌∷◌,
  length, Text, is_empty, Bool-cases, arith,
}
use vintagestory_go.Vshttp.Errors.{Error, is_nil}
use vintagestory_go.Vshttp.Json.{Result, ok, err}
use vintagestory_go.Modpack.Semver.{Semver}
use vintagestory_go.Modpack.Types.{
  ModInstall, Build, up_to_date, update_available, not_updatable, local_mod, not_in_catalog,
  catalog_error, ModUpdate, Report, ModVersion, ModInfo,
}
use vintagestory_go.Modpack.Select.{select_target_version}
use vintagestory_go.Modpack.Report.{
  offer, look_up, refusal, analyze_mod, installed_ids, supports_game_version, analyze,
}
use vintagestory_go.Modpack.Report.Laws.{Entries, analyze-Analyzed}
use vintagestory_go.Modpack.Report.Counts.{IsComplete, analyze-IsComplete}

module _ (s : Semver) where
  -- The mods that Analyze asks the catalog about.
  abbrev pub IsAsked : ModInstall → Type 0
  IsAsked m = (m.managed ≡ true) × (is_empty m.mod_id ≡ false)

  -- The five verdicts on a mod, with what the catalog says of it.
  pub data Verdict (m : ModInstall) (game : Text) (get : Text → Result ModInfo) (u : ModUpdate)
      : Type 0 where
    unmanaged :
        (m.managed ≡ false) ⊎ (is_empty m.mod_id ≡ true)
        → u.status ≡ not_updatable
        → u.reason ≡ local_mod
        → Verdict m game get u
    failed :
        (e : Error)
        → IsAsked m
        → get m.mod_id ≡ err e
        → u.status ≡ not_updatable
        → u.reason ≡ catalog_error
        → Verdict m game get u
    absent :
        (info : ModInfo)
        → IsAsked m
        → get m.mod_id ≡ ok info
        → is_empty info.id ≡ true
        → u.status ≡ not_updatable
        → u.reason ≡ not_in_catalog
        → Verdict m game get u
    current :
        (info : ModInfo)
        → IsAsked m
        → get m.mod_id ≡ ok info
        → is_empty info.id ≡ false
        → select_target_version s info m.version ≡ none
        → u.status ≡ up_to_date
        → Verdict m game get u
    offered :
        (info : ModInfo) (t : ModVersion)
        → IsAsked m
        → get m.mod_id ≡ ok info
        → is_empty info.id ≡ false
        → select_target_version s info m.version ≡ some t
        → u.status ≡ update_available
        → (u.target_version ≡ t.version)
          × (u.compatible ≡ supports_game_version t.game_versions game)
        → Verdict m game get u

  -- An entry is about its mod, and has a verdict on it.
  abbrev pub IsEntry : ModInstall → Text → (Text → Result ModInfo) → ModUpdate → Type 0
  IsEntry m game get u =
      (u.mod_id ≡ m.mod_id) × (u.installed_version ≡ m.version) × Verdict m game get u

  look_up-IsEntry :
      (m : ModInstall) (game : Text) (installed : List Text) (get : Text → Result ModInfo)
      (r : Result ModInfo)
      → IsAsked m
      → get m.mod_id ≡ r
      → IsEntry m game get (look_up s m game installed r)
  unfolding look_up refusal
  look_up-IsEntry m game installed get (err e) a g = (refl, refl, failed e a g refl refl)
  look_up-IsEntry m game installed get (ok info) a g = elim (Bool-cases (is_empty info.id)) [
    | inl gone ↦ rw gone (refl, refl, absent info a g gone refl refl)
    | inr known ↦ rw known (go known (select_target_version s info m.version) refl)
  ]
    where
      go :
          is_empty info.id ≡ false
          → (o : Option ModVersion) → select_target_version s info m.version ≡ o
          → IsEntry m game get (offer s m game installed o)
      go known none e = unfold offer in (refl, refl, current info a g known e refl)
      go known (some t) e =
          unfold offer in (refl, refl, offered info t a g known e refl (refl, refl))

  analyze_mod-IsEntry :
      (m : ModInstall) (game : Text) (installed : List Text) (get : Text → Result ModInfo)
      → IsEntry m game get (analyze_mod s m game installed get)
  unfolding analyze_mod refusal
  analyze_mod-IsEntry m game installed get =
      elim (Bool-cases (not m.managed || is_empty m.mod_id)) [
        | inl e ↦ rw e (refl, refl, unmanaged (ground (arith, e)) refl refl)
        | inr e ↦ rw e (
            look_up-IsEntry m game installed get (get m.mod_id)
              (ground (arith, e), ground (arith, e)) refl)
      ]

  module _ (ctx_err : ℕ → Error) (get : ℕ → Text → Result ModInfo) where
    -- One entry for each mod from round i on, in the order of the build.
    abbrev pub AreEntries : Text → ℕ → List ModInstall → List ModUpdate → Type 0
    AreEntries game i [] [] = Unit {0}
    AreEntries game i [] (u ∷ us) = ⊥
    AreEntries game i (m ∷ ms) [] = ⊥
    AreEntries game i (m ∷ ms) (u ∷ us) =
        (is_nil (ctx_err i) ≡ true) × IsEntry m game (get i) u × AreEntries game (suc i) ms us

    Entries-AreEntries :
        (game : Text) (installed : List Text) (i : ℕ) (ms : List ModInstall) (us : List ModUpdate)
        → Entries s ctx_err get game installed i ms us
        → AreEntries game i ms us
    Entries-AreEntries game installed i [] [] h = tt
    Entries-AreEntries game installed i [] (u ∷ us) h = absurd h
    Entries-AreEntries game installed i (m ∷ ms) [] h = absurd h
    Entries-AreEntries game installed i (m ∷ ms) (u ∷ us) (n, e, h) = (
      n,
      rw e (analyze_mod-IsEntry m game installed (get i)),
      Entries-AreEntries game installed (suc i) ms us h,
    )

    -- What Analyze promises of its result.
    abbrev pub IsReport : Build → Result Report → Type 0
    IsReport build (ok r) =
        (r.build ≡ build)
        × AreEntries build.game_version 0 build.mods r.mods
        × IsComplete r.summary (length build.mods)
    IsReport build (err e) =
        (k : ℕ) × (k < length build.mods)
        × (ctx_err k ≡ e)
        × (is_nil e ≡ false)
        × ((j : ℕ) → j < k → is_nil (ctx_err j) ≡ true)

    -- Analyze returns the error of the context before the first mod at which it had ended, and if it
    -- had ended before none a report on the build as it was, with an entry for each mod in order: not
    -- updatable if it is not managed or has no id, if the catalog fails or if it does not know the
    -- mod, each with its reason; up to date if no version is selected; and else an update to the
    -- selected version, compatible if that supports the version of the game. Its summary counts each
    -- mod once among the five verdicts, and at most the updates as incompatible.
    pub analyze-IsReport : (build : Build) → IsReport build (analyze s ctx_err get build)
    analyze-IsReport build = go (analyze s ctx_err get build) refl
      where
        go : (r : Result Report) → analyze s ctx_err get build ≡ r → IsReport build r
        go (ok r) e =
            let (same, entries, _) = rw e at (analyze-Analyzed s ctx_err get build) in
            (
              same,
              Entries-AreEntries build.game_version (installed_ids build.mods) 0 build.mods r.mods
                  entries,
              analyze-IsComplete s ctx_err get build r e,
            )
        go (err x) e = rw e at (analyze-Analyzed s ctx_err get build)
