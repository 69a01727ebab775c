-- ===== src/Modpack/Report.antt =====
-- modpack/modpack.go: Analyze and its report.
pub mod Laws
pub mod Counts
pub mod Verdicts
pub mod Dependencies
use vintagestory_go.Base.{
  ℕ, suc, ◌+◌, Bool, true, false, not, ◌&&◌, ◌||◌, Option, none, some, List, [], ◌∷◌, ◌++◌, Text,
  text, is_empty, eq_text, member, length, keep, map, ◌==◌, if◌then◌else◌,
}
use vintagestory_go.Base.Strings.{trim_space, to_lower, split, has_prefix}
use vintagestory_go.Vshttp.Errors.{Error, is_nil}
use vintagestory_go.Vshttp.Json.{Result, ok, err}
use vintagestory_go.Modpack.Semver.{Semver}
use vintagestory_go.Modpack.Types.{
  ModInstall, Build, Dependency, ModStatus, up_to_date, update_available, not_updatable, unknown,
  NotUpdatableReason, no_reason, local_mod, not_in_catalog, catalog_error, ModUpdate, Summary,
  Report, ModVersion, ModInfo,
}
use vintagestory_go.Modpack.Select.{select_target_version, is_stable_release}

-- p[0] + "." + p[1] + "." is a prefix, for the parts p of a version that has two or more.
same_series : List Text → Text → Bool
same_series [] requested = false
same_series (a ∷ []) requested = false
same_series (a ∷ b ∷ rest) requested = has_prefix requested (a ++ text "." ++ b ++ text ".")

supports : Text → Text → Bool
unfolding same_series
supports v requested = eq_text v requested || same_series (split (trim_space v) b'.') requested

supported_by : List Text → Text → Bool
unfolding supports
supported_by [] requested = false
supported_by (v ∷ vs) requested = supports v requested || supported_by vs requested

unfoldable pub supports_game_version : List Text → Text → Bool
unfolding supported_by
supports_game_version supported requested =
    if supported_by supported requested then true else length supported == 0

unfoldable pub is_built_in_dependency : Text → Bool
is_built_in_dependency id =
    member (to_lower (trim_space id)) (text "game" ∷ text "survival" ∷ text "creative" ∷ [])

unfoldable pub still_required : Text → List Dependency → Bool
still_required id [] = false
still_required id (d ∷ ds) = eq_text d.mod_id id || still_required id ds

-- A set of mod ids is a list with the test `member`.
is_added : List Text → List Text → Dependency → Bool
is_added old installed d =
    if is_built_in_dependency d.mod_id
    then false
    else if member d.mod_id installed
    then false
    else not (member d.mod_id old)

is_removed : List Dependency → List Text → Text → Bool
is_removed target installed id =
    if not (is_built_in_dependency id) && not (still_required id target)
    then member id installed
    else false

abbrev pub bare_dependency : Text → Dependency
bare_dependency id = record { mod_id = id; name = text ""; requirement = text "" }

unfoldable pub dependency_diff :
    List Text → List Dependency → List Text → List Dependency × List Dependency
unfolding is_added is_removed
dependency_diff old target installed = (
  keep (is_added old installed) target,
  map bare_dependency (keep (is_removed target installed) old),
)

module _ (s : Semver) where
  abbrev fresh : ModInstall → ModUpdate
  fresh m = record {
    mod_id = m.mod_id;
    name = m.name;
    installed_version = m.version;
    target_version_id = text "";
    target_version = text "";
    status = unknown;
    reason = no_reason;
    changelog = text "";
    compatible = false;
    prerelease = false;
    added_deps = [];
    removed_deps = [];
  }

  refusal : ModInstall → NotUpdatableReason → ModUpdate
  refusal m why = record (fresh m) { status = not_updatable; reason = why }

  offer : ModInstall → Text → List Text → Option ModVersion → ModUpdate
  offer m game installed none = record (fresh m) { status = up_to_date }
  offer m game installed (some target) =
      let (added, removed) = dependency_diff m.dependencies target.dependencies installed in
      record (fresh m) {
        status = update_available;
        target_version_id = target.id;
        target_version = target.version;
        changelog = target.changelog;
        compatible = supports_game_version target.game_versions game;
        prerelease = not (is_stable_release target.release_type);
        added_deps = added;
        removed_deps = removed;
      }

  look_up : ModInstall → Text → List Text → Result ModInfo → ModUpdate
  unfolding refusal offer
  look_up m game installed (err e) = refusal m catalog_error
  look_up m game installed (ok info) =
      if is_empty info.id
      then refusal m not_in_catalog
      else offer m game installed (select_target_version s info m.version)

  -- analyzeMod, with what catalog.Get returns for the mod.
  unfoldable pub analyze_mod : ModInstall → Text → List Text → (Text → Result ModInfo) → ModUpdate
  unfolding look_up
  analyze_mod m game installed get =
      if not m.managed || is_empty m.mod_id
      then refusal m local_mod
      else look_up m game installed (get m.mod_id)

-- The first loop of Analyze.
unfoldable pub installed_ids : List ModInstall → List Text
installed_ids [] = []
installed_ids (m ∷ ms) =
    if not (is_empty m.mod_id) then m.mod_id ∷ installed_ids ms else installed_ids ms

count_refusal : NotUpdatableReason → Summary → Summary
count_refusal local_mod s = record s { not_updatable_local = suc s.not_updatable_local }
count_refusal not_in_catalog s = record s { not_updatable_absent = suc s.not_updatable_absent }
count_refusal catalog_error s = record s {
  not_updatable_catalog_error = suc s.not_updatable_catalog_error;
}
count_refusal no_reason s = s

count_status : ModStatus → ModUpdate → Summary → Summary
unfolding count_refusal
count_status up_to_date m s = record s { up_to_date = suc s.up_to_date }
count_status update_available m s = record s {
  updates_available = suc s.updates_available;
  incompatible = if not m.compatible then suc s.incompatible else s.incompatible;
}
count_status not_updatable m s = count_refusal m.reason s
count_status unknown m s = s

count_from : Summary → List ModUpdate → Summary
unfolding count_status
count_from s [] = s
count_from s (m ∷ ms) = count_from (count_status m.status m s) ms

unfoldable pub summarize : List ModUpdate → Summary
unfolding count_from
summarize mods =
    count_from
      (record {
        total_mods = length mods;
        up_to_date = 0;
        updates_available = 0;
        not_updatable_local = 0;
        not_updatable_absent = 0;
        not_updatable_catalog_error = 0;
        incompatible = 0;
      })
      mods

module _ (s : Semver) (ctx_err : ℕ → Error) (get : ℕ → Text → Result ModInfo) (game : Text)
    (installed : List Text) where
  -- The second loop of Analyze at its i-th round: ctx.Err() first, then the mod. The catalog may
  -- answer differently from round to round.
  analyze_from : ℕ → List ModInstall → Result (List ModUpdate)
  analyze_from i [] = ok []
  analyze_from i (m ∷ ms) =
      let rest = analyze_from (suc i) ms in
      if not (is_nil (ctx_err i))
      then err (ctx_err i)
      else elim rest [ err e ↦ err e | ok us ↦ ok (analyze_mod s m game installed (get i) ∷ us) ]

finish : Build → Result (List ModUpdate) → Result Report
finish build (err e) = err e
finish build (ok us) = ok (record { build = build; mods = us; summary = summarize us })

-- func Analyze
unfoldable pub analyze : Semver → (ℕ → Error) → (ℕ → Text → Result ModInfo) → Build → Result Report
unfolding analyze_from finish
analyze s ctx_err get build =
    finish build
      (analyze_from s ctx_err get build.game_version (installed_ids build.mods) 0 build.mods)
