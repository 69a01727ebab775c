-- ===== src/Modpack/Report/Laws.antt =====
-- modpack/modpack.go: what an offered update is, and what Analyze returns.
use vintagestory_go.Base.{
  ℕ, suc, ◌+◌, ◌≤◌, ◌<◌, ◌≡◌, refl, inl, inr, true, false, not, ◌||◌, Option, none, some, List, [],
  ◌∷◌, Text, is_empty, arith, Bool-cases, length, ltb, ltb→lt,
}
use vintagestory_go.Vshttp.Errors.{Error, is_nil}
use vintagestory_go.Vshttp.Json.{Result, ok, err}
use vintagestory_go.Modpack.Semver.{Semver}
use vintagestory_go.Modpack.Types.{
  ModInstall, Build, update_available, ModUpdate, Report, ModVersion, ModInfo,
}
use vintagestory_go.Modpack.Select.{select_target_version}
use vintagestory_go.Modpack.Select.Update.{
  IsUpdate, is_upgrade_target-IsUpdate, select_target_version-upgrade,
}
use vintagestory_go.Modpack.Report.{
  offer, look_up, refusal, analyze_mod, analyze_from, installed_ids, supports_game_version, analyze,
  finish, summarize,
}

module _ (s : Semver) where
  -- What an entry of the report that offers an update rests on.
  pub record IsOffer (m : ModInstall) (game : Text) (get : Text → Result ModInfo) (u : ModUpdate)
      : Type 0 where
    pub info : ModInfo
    pub target : ModVersion
    pub managed : m.managed ≡ true
    pub named : is_empty m.mod_id ≡ false
    pub listed : get m.mod_id ≡ ok info
    pub known : is_empty info.id ≡ false
    pub selected : select_target_version s info m.version ≡ some target
    pub update : IsUpdate s m.version target
    pub target_version : u.target_version ≡ target.version
    pub compatible : u.compatible ≡ supports_game_version target.game_versions game

  offer-update :
      (m : ModInstall) (game : Text) (installed : List Text) (o : Option ModVersion)
      → (offer s m game installed o).status ≡ update_available
      → (t : ModVersion) × (o ≡ some t)
  unfolding offer
  offer-update m game installed none h = cc
  offer-update m game installed (some t) h = (t, refl)

  look_up-IsOffer :
      (m : ModInstall) (game : Text) (installed : List Text) (get : Text → Result ModInfo)
      (r : Result ModInfo)
      → m.managed ≡ true
      → is_empty m.mod_id ≡ false
      → get m.mod_id ≡ r
      → (look_up s m game installed r).status ≡ update_available
      → IsOffer m game get (look_up s m game installed r)
  unfolding look_up refusal
  look_up-IsOffer m game installed get (err e) managed named g h = absurd (ground (arith, h))
  look_up-IsOffer m game installed get (ok info) managed named g h =
      elim (Bool-cases (is_empty info.id)) [
        | inl absent ↦ absurd (ground (arith, rw absent at h))
        | inr known ↦
            let (t, e) =
              offer-update m game installed (select_target_version s info m.version)
                (rw known at h) in
            rw known (
              rw e (
                unfold offer in
                record {
                  info = info;
                  target = t;
                  managed = managed;
                  named = named;
                  listed = g;
                  known = known;
                  selected = e;
                  update =
                      is_upgrade_target-IsUpdate s m.version t
                        (select_target_version-upgrade s info m.version t e);
                  target_version = refl;
                  compatible = refl;
                }))
      ]

  -- An entry offers an update only for a managed mod that the catalog knows, and then to the selected
  -- version, which is strictly newer than the installed one, and which is no prerelease unless the
  -- installed version is one.
  pub analyze_mod-IsOffer :
      (m : ModInstall) (game : Text) (installed : List Text) (get : Text → Result ModInfo)
      → (analyze_mod s m game installed get).status ≡ update_available
      → IsOffer m game get (analyze_mod s m game installed get)
  unfolding analyze_mod refusal
  analyze_mod-IsOffer m game installed get h =
      elim (Bool-cases (not m.managed || is_empty m.mod_id)) [
        | inl e ↦ absurd (ground (arith, rw e at h))
        | inr e ↦ rw e (
            look_up-IsOffer m game installed get (get m.mod_id) (ground (arith, e))
              (ground (arith, e)) refl (rw e at h))
      ]

  module _ (ctx_err : ℕ → Error) (get : ℕ → Text → Result ModInfo) where
    -- One entry for each mod, in the order of the build, before none of which the context had ended.
    abbrev pub Entries : Text → List Text → ℕ → List ModInstall → List ModUpdate → Type 0
    Entries game installed i [] [] = Unit {0}
    Entries game installed i [] (u ∷ us) = ⊥
    Entries game installed i (m ∷ ms) [] = ⊥
    Entries game installed i (m ∷ ms) (u ∷ us) =
        (is_nil (ctx_err i) ≡ true)
        × (u ≡ analyze_mod s m game installed (get i))
        × Entries game installed (suc i) ms us

    -- A result of the second loop from round i on, with `left` mods to go.
    abbrev Loop : Text → List Text → ℕ → List ModInstall → Result (List ModUpdate) → Type 0
    Loop game installed i ms (ok us) = Entries game installed i ms us
    Loop game installed i ms (err e) =
        (k : ℕ) × (i ≤ k)
        × (k < i + length ms)
        × (ctx_err k ≡ e)
        × (is_nil e ≡ false)
        × ((j : ℕ) → i ≤ j → j < k → is_nil (ctx_err j) ≡ true)

    analyze_from-Loop :
        (game : Text) (installed : List Text) (i : ℕ) (ms : List ModInstall)
        → Loop game installed i ms (analyze_from s ctx_err get game installed i ms)
    unfolding analyze_from
    analyze_from-Loop game installed i [] = tt
    analyze_from-Loop game installed i (m ∷ ms) =
        step (analyze_from s ctx_err get game installed (suc i) ms) refl
          (analyze_from-Loop game installed (suc i) ms)
      where
        stopped : is_nil (ctx_err i) ≡ false → Loop game installed i (m ∷ ms) (err (ctx_err i))
        stopped e = (i, omega arith, omega arith, refl, e, λ j a b. absurd (omega (arith, a, b)))

        earlier :
            is_nil (ctx_err i) ≡ true
            → (k : ℕ) → ((j : ℕ) → suc i ≤ j → j < k → is_nil (ctx_err j) ≡ true)
            → (j : ℕ) → i ≤ j
            → j < k
            → is_nil (ctx_err j) ≡ true
        earlier n k alive j a b = elim (Bool-cases (ltb i j)) [
          | inl l ↦ alive j (ltb→lt i j l) b
          | inr l ↦ let same : i ≡ j = ground (arith, a, l) in rw (← same) n
        ]

        step :
            (r : Result (List ModUpdate))
            → analyze_from s ctx_err get game installed (suc i) ms ≡ r
            → Loop game installed (suc i) ms r
            → Loop game installed i (m ∷ ms) (analyze_from s ctx_err get game installed i (m ∷ ms))
        step (ok us) e h = elim (Bool-cases (is_nil (ctx_err i))) [
          | inl n ↦ rw (e, analyze_from) (rw n (n, refl, h))
          | inr n ↦ rw (e, analyze_from) (rw n (stopped n))
        ]
        step (err x) e (k, lo, hi, same, bad, alive) = elim (Bool-cases (is_nil (ctx_err i))) [
          | inl n ↦
              rw (e, analyze_from)
                (rw n (k, omega arith, omega arith, same, bad, earlier n k alive))
          | inr n ↦ rw (e, analyze_from) (rw n (stopped n))
        ]

    -- What Analyze promises of its result.
    abbrev pub Analyzed : Build → Result Report → Type 0
    Analyzed build (ok r) =
        (r.build ≡ build)
        × Entries build.game_version (installed_ids build.mods) 0 build.mods r.mods
        × (r.summary ≡ summarize r.mods)
    Analyzed build (err e) =
        (k : ℕ) × (k < length build.mods)
        × (ctx_err k ≡ e)
        × (is_nil e ≡ false)
        × ((j : ℕ) → j < k → is_nil (ctx_err j) ≡ true)

    -- Analyze returns a report only if the context had ended before none of the mods, with the build
    -- unchanged, one entry for each mod in order, and the summary of the entries; else it returns the
    -- error of the context before the first mod at which it had ended.
    pub analyze-Analyzed : (build : Build) → Analyzed build (analyze s ctx_err get build)
    unfolding analyze finish
    analyze-Analyzed build =
        wrap (analyze_from s ctx_err get build.game_version (installed_ids build.mods) 0 build.mods)
          (analyze_from-Loop build.game_version (installed_ids build.mods) 0 build.mods)
      where
        wrap :
            (r : Result (List ModUpdate))
            → Loop build.game_version (installed_ids build.mods) 0 build.mods r
            → Analyzed build (finish build r)
        wrap (ok us) h = (refl, h, refl)
        wrap (err e) (k, lo, hi, same, bad, alive) =
            (k, omega arith, same, bad, λ j a. alive j (omega arith) a)
