-- ===== src/Modpack/Tests.antt =====
-- Runs of modpack at concrete inputs, with a simple order of versions for package semver, and its
-- theorems there.
use Prim.Native.Nat.{Ordering}
use mathlib.Core.Logic.{◌↔◌}
use vintagestory_go.Base.{
  ◌≡◌, refl, ◌≢◌, true, false, some, List, [], ◌∷◌, Text, text, eq_text_refl, All, In,
}
use vintagestory_go.Base.Strings.{trim_space, to_lower, has_prefix, contains, equal_fold, split}
use vintagestory_go.Vshttp.Errors.{nil}
use vintagestory_go.Vshttp.Json.{Result, ok}
use vintagestory_go.Modpack.Semver.{
  Semver, SemverLaws, compare_text, compare_versions, is_prerelease_version, version_equals,
}
use vintagestory_go.Modpack.Semver.Order.{compare_text-flip, compare_text_trans}
use vintagestory_go.Modpack.Types.{
  ModInstall, Build, Dependency, update_available, ModStatus, NotUpdatableReason, Report,
  ModVersion, ModInfo,
}
use vintagestory_go.Modpack.Select.{
  is_upgrade_target, newest_version, select_target_version, is_stable_release, find_version,
  is_prerelease_target,
}
use vintagestory_go.Modpack.Select.Newest.{IsUnbeaten, newest_version-IsUnbeaten}
use vintagestory_go.Modpack.Report.{
  analyze_mod, analyze, dependency_diff, bare_dependency, supports_game_version, installed_ids,
  summarize, is_built_in_dependency, still_required,
}
use vintagestory_go.Modpack.Report.Laws.{IsOffer, analyze_mod-IsOffer}
use vintagestory_go.Modpack.Report.Verdicts.{IsReport, analyze-IsReport}
use vintagestory_go.Modpack.Report.Dependencies.{IsAdded, IsRemoved, dependency_diff-parts}

-- Versions in the order of their bytes; those with a dash are prereleases.
abbrev byte_order : Semver
byte_order = record {
  is_valid = λ v. has_prefix v (text "v");
  canonical = λ v. v;
  prerelease = λ v. elim (contains v (text "-")) [ true ↦ v | false ↦ text "" ];
  compare = compare_text;
}

not_blank : (v : Text) → has_prefix v (text "v") ≡ true → v ≢ text ""
unfolding has_prefix
not_blank [] h e = cc
not_blank (c ∷ v) h e = cc

compare_text_refl : (v : Text) → compare_text v v ≡ Ordering.eq
unfolding compare_text
compare_text_refl v = rw (eq_text_refl v)

byte_order-SemverLaws : SemverLaws byte_order
byte_order-SemverLaws = record {
  valid_v = λ v h. h;
  canonical_nonempty = not_blank;
  compare_refl = compare_text_refl;
  compare_flip = compare_text-flip;
  compare_trans = compare_text_trans;
}

abbrev release : Text → Text → List Dependency → ModVersion
release version kind deps = record {
  id = version;
  version = version;
  release_type = kind;
  game_versions = text "1.20.1" ∷ [];
  changelog = text "";
  dependencies = deps;
}

abbrev catalog : List ModVersion
catalog =
    release (text "2.0.0-rc") (text "beta") []
    ∷ release (text "1.1.0") (text "stable") (bare_dependency (text "lib") ∷ [])
    ∷ release (text "1.2.0") (text "stable")
        (bare_dependency (text "lib") ∷ bare_dependency (text "game") ∷ [])
    ∷ []

abbrev storage : ModInstall
storage = record {
  mod_id = text "storage";
  name = text "Storage";
  version = text "1.0.0";
  file_name = text "storage.zip";
  managed = true;
  enabled = true;
  dependencies = text "old" ∷ [];
}

abbrev local : ModInstall
local = record storage { mod_id = text "old"; managed = false }

abbrev known : Text → Result ModInfo
known id = ok (record { id = text "7"; latest_version = text ""; versions = catalog })

abbrev pack : Build
pack = record { game_version = text "1.20.7"; mods = storage ∷ local ∷ [] }

running : Unit {0}
unfolding newest_version is_upgrade_target compare_versions is_prerelease_version
    is_prerelease_target is_stable_release compare_text trim_space to_lower has_prefix contains
    equal_fold select_target_version analyze_mod analyze dependency_diff supports_game_version
    installed_ids summarize is_built_in_dependency still_required split find_version version_equals
running = tt

newest_run :
    newest_version byte_order catalog (text "1.0.0")
    ≡ some (
        release
          (text "1.2.0")
          (text "stable")
          (bare_dependency (text "lib") ∷ bare_dependency (text "game") ∷ []))
unfolding running
newest_run = refl

abbrev newest : ModVersion
newest =
    release (text "1.2.0") (text "stable")
      (bare_dependency (text "lib") ∷ bare_dependency (text "game") ∷ [])

newest_version-IsUnbeaten_example :
    In newest catalog
    × (is_upgrade_target byte_order (text "1.0.0") newest ≡ true)
    × All (IsUnbeaten byte_order (text "1.0.0") newest) catalog
newest_version-IsUnbeaten_example =
    newest_version-IsUnbeaten byte_order byte_order-SemverLaws (text "1.0.0") catalog newest
      newest_run

analyze_mod-IsOffer_example :
    IsOffer byte_order storage
      (text "1.20.7")
      known
      (analyze_mod byte_order storage (text "1.20.7") (text "storage" ∷ []) known)
unfolding running
analyze_mod-IsOffer_example =
    analyze_mod-IsOffer byte_order storage (text "1.20.7") (text "storage" ∷ []) known refl

analyze-IsReport_example :
    IsReport byte_order
      (λ i. nil)
      (λ i. known)
      pack
      (analyze byte_order (λ i. nil) (λ i. known) pack)
analyze-IsReport_example = analyze-IsReport byte_order (λ i. nil) (λ i. known) pack

-- The report of the pack: one update, which the game supports, and one local mod.
abbrev pack_report : Report
pack_report = record {
  build = pack;
  mods =
      record {
        mod_id = text "storage";
        name = text "Storage";
        installed_version = text "1.0.0";
        target_version_id = text "1.2.0";
        target_version = text "1.2.0";
        status = update_available;
        reason = NotUpdatableReason.no_reason;
        changelog = text "";
        compatible = true;
        prerelease = false;
        added_deps = bare_dependency (text "lib") ∷ [];
        removed_deps = bare_dependency (text "old") ∷ [];
      }
      ∷ record {
        mod_id = text "old";
        name = text "Storage";
        installed_version = text "1.0.0";
        target_version_id = text "";
        target_version = text "";
        status = ModStatus.not_updatable;
        reason = NotUpdatableReason.local_mod;
        changelog = text "";
        compatible = false;
        prerelease = false;
        added_deps = [];
        removed_deps = [];
      }
      ∷ [];
  summary = record {
    total_mods = 2;
    up_to_date = 0;
    updates_available = 1;
    not_updatable_local = 1;
    not_updatable_absent = 0;
    not_updatable_catalog_error = 0;
    incompatible = 0;
  };
}

abbrev lib : Dependency
lib = bare_dependency (text "lib")

abbrev needed : Dependency
needed = bare_dependency (text "lib")

dependency_diff-parts_example :
    (In needed (dependency_diff (text "old" ∷ []) (needed ∷ []) (text "old" ∷ [])).0
      ↔ IsAdded (text "old" ∷ []) (needed ∷ []) (text "old" ∷ []) needed)
    × (In needed (dependency_diff (text "old" ∷ []) (needed ∷ []) (text "old" ∷ [])).1 ↔ (
        (id : Text) × (bare_dependency id ≡ needed)
        × IsRemoved (text "old" ∷ []) (needed ∷ []) (text "old" ∷ []) id))
dependency_diff-parts_example =
    dependency_diff-parts (text "old" ∷ []) (needed ∷ []) (text "old" ∷ []) needed
