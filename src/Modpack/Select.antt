-- ===== src/Modpack/Select.antt =====
-- modpack/modpack.go: which version of a mod is offered as an update.
pub mod Newest
pub mod Update
use Prim.Native.Nat.{Ordering}
use vintagestory_go.Base.{
  Bool, true, false, not, ◌||◌, Option, none, some, List, [], ◌∷◌, Text, text, is_empty,
  if◌then◌else◌,
}
use vintagestory_go.Base.Strings.{equal_fold}
use vintagestory_go.Modpack.Semver.{Semver, compare_versions, version_equals, is_prerelease_version}
use vintagestory_go.Modpack.Types.{ModVersion, ModInfo}

unfoldable pub is_stable_release : Text → Bool
is_stable_release v = is_empty v || equal_fold v (text "stable")

-- a != b
abbrev pub xor : Bool → Bool → Bool
xor true b = not b
xor false b = b

-- order > 0
abbrev pub is_newer : Ordering → Bool
is_newer Ordering.lt = false
is_newer Ordering.eq = false
is_newer Ordering.gt = true

-- ModVersion{Version: version}
abbrev pub bare_version : Text → ModVersion
bare_version version = record {
  id = text "";
  version = version;
  release_type = text "";
  game_versions = [];
  changelog = text "";
  dependencies = [];
}

module _ (s : Semver) where
  unfoldable pub is_prerelease_target : ModVersion → Bool
  is_prerelease_target target =
      if not (is_stable_release target.release_type)
      then true
      else is_prerelease_version s target.version

  unfoldable pub is_upgrade_target : Text → ModVersion → Bool
  is_upgrade_target installed target =
      if is_empty installed || is_empty target.version
      then false
      else if not (is_newer (compare_versions s target.version installed))
      then false
      else if is_prerelease_version s installed
      then true
      else not (is_prerelease_target target)

  unfoldable pub find_version : List ModVersion → Text → Option ModVersion
  find_version [] version = none
  find_version (x ∷ xs) version =
      if version_equals s x.version version then some x else find_version xs version

  -- One round of the loop of newestVersion with a best version.
  unfoldable pub better : (best x : ModVersion) → ModVersion
  better best x =
      let best_stable = is_stable_release best.release_type in
      let candidate_stable = is_stable_release x.release_type in
      if xor candidate_stable best_stable
      then (if candidate_stable then x else best)
      else (if is_newer (compare_versions s x.version best.version) then x else best)

  replace_best : Option ModVersion → ModVersion → Option ModVersion
  unfolding better
  replace_best none x = some x
  replace_best (some best) x = some (better best x)

  -- The loop of newestVersion; `none` is found == false.
  newest_from : Text → Option ModVersion → List ModVersion → Option ModVersion
  unfolding replace_best
  newest_from installed best [] = best
  newest_from installed best (x ∷ xs) =
      newest_from installed (if is_upgrade_target installed x then replace_best best x else best) xs

  unfoldable pub newest_version : List ModVersion → Text → Option ModVersion
  unfolding newest_from
  newest_version v installed = newest_from installed none v

  try_latest : ModInfo → Text → Option ModVersion → Option ModVersion
  try_latest info installed (some v) =
      if is_upgrade_target installed v then some v else newest_version info.versions installed
  try_latest info installed none =
      if is_upgrade_target installed (bare_version info.latest_version)
      then some (bare_version info.latest_version)
      else newest_version info.versions installed

  unfoldable pub select_target_version : ModInfo → Text → Option ModVersion
  unfolding try_latest
  select_target_version info installed =
      if is_empty info.latest_version
      then newest_version info.versions installed
      else try_latest info installed (find_version info.versions info.latest_version)
