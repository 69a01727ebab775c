-- ===== src/Modpack/Select/Update.antt =====
-- modpack/modpack.go IsUpgradeTarget and selectTargetVersion: what is selected.
use Prim.Native.Nat.{Ordering}
use vintagestory_go.Base.{
  ◌≡◌, refl, ◌⊎◌, inl, inr, true, false, Option, none, some, Text, is_empty, arith, Bool-cases,
}
use vintagestory_go.Modpack.Semver.{Semver, compare_versions, is_prerelease_version}
use vintagestory_go.Modpack.Types.{ModVersion, ModInfo}
use vintagestory_go.Modpack.Select.{
  is_newer, is_prerelease_target, is_upgrade_target, find_version, try_latest,
  select_target_version, bare_version,
}
use vintagestory_go.Modpack.Select.Newest.{newest_version-upgrade}

newer-gt : (o : Ordering) → is_newer o ≡ true → o ≡ Ordering.gt
newer-gt Ordering.lt h = cc
newer-gt Ordering.eq h = cc
newer-gt Ordering.gt h = refl

module _ (s : Semver) where
  -- A genuine update: strictly newer, and a prerelease only for a prerelease.
  pub record IsUpdate (installed : Text) (target : ModVersion) : Type 0 where
    pub newer : compare_versions s target.version installed ≡ Ordering.gt
    pub channel :
        (is_prerelease_version s installed ≡ true) ⊎ (is_prerelease_target s target ≡ false)

  pub is_upgrade_target-IsUpdate :
      (installed : Text) (target : ModVersion)
      → is_upgrade_target s installed target ≡ true
      → IsUpdate installed target
  unfolding is_upgrade_target
  is_upgrade_target-IsUpdate installed target h = record {
    newer = newer-gt (compare_versions s target.version installed) (ground arith);
    channel = ground arith;
  }

  try_latest-upgrade :
      (info : ModInfo) (installed : Text) (o : Option ModVersion) (t : ModVersion)
      → try_latest s info installed o ≡ some t
      → is_upgrade_target s installed t ≡ true
  unfolding try_latest
  try_latest-upgrade info installed (some v) t e =
      elim (Bool-cases (is_upgrade_target s installed v)) [
        | inl h ↦ ground (arith, h, e)
        | inr h ↦ newest_version-upgrade s installed info.versions t (rw h at e)
      ]
  try_latest-upgrade info installed none t e =
      elim (Bool-cases (is_upgrade_target s installed (bare_version info.latest_version))) [
        | inl h ↦
            let same : bare_version info.latest_version ≡ t = ground (arith, rw h at e) in
            rw same at h
        | inr h ↦ newest_version-upgrade s installed info.versions t (rw h at e)
      ]

  -- What selectTargetVersion returns is an update.
  pub select_target_version-upgrade :
      (info : ModInfo) (installed : Text) (t : ModVersion)
      → select_target_version s info installed ≡ some t
      → is_upgrade_target s installed t ≡ true
  unfolding select_target_version
  select_target_version-upgrade info installed t e =
      elim (Bool-cases (is_empty info.latest_version)) [
        | inl h ↦ newest_version-upgrade s installed info.versions t (rw h at e)
        | inr h ↦
            try_latest-upgrade info installed (find_version s info.versions info.latest_version) t
              (rw h at e)
      ]
