-- ===== src/Modpack/Report/Dependencies.antt =====
-- modpack/modpack.go dependencyDiff: which dependencies are reported.
use vintagestory_go.Base.{
  ◌≡◌, refl, ◌≢◌, ◌↔◌, true, false, List, [], ◌∷◌, Text, map, keep, member, All, In, arith,
  eq_text_iff,
}
use vintagestory_go.Base.Membership.{In-keep, In-map, In-map_of_In, member_iff, not-member_iff}
use vintagestory_go.Modpack.Types.{Dependency}
use vintagestory_go.Modpack.Report.{
  is_built_in_dependency, still_required, is_added, is_removed, bare_dependency, dependency_diff,
}

-- What "added" means: needed by the target, not part of the game, not installed, and not
-- declared by the installed version.
pub record IsAdded (old : List Text) (target : List Dependency) (installed : List Text)
    (d : Dependency) : Type 0 where
  pub needed : In d target
  pub foreign : is_built_in_dependency d.mod_id ≡ false
  pub absent : ¬ In d.mod_id installed
  pub undeclared : ¬ In d.mod_id old

-- What "removed" means: declared by the installed version, not part of the game, installed, and not
-- needed by the target.
pub record IsRemoved (old : List Text) (target : List Dependency) (installed : List Text)
    (id : Text) : Type 0 where
  pub declared : In id old
  pub foreign : is_built_in_dependency id ≡ false
  pub present : In id installed
  pub unneeded : All (λ d. d.mod_id ≢ id) target

is_added-true :
    (old installed : List Text) (d : Dependency)
    → is_added old installed d ≡ true
    → (is_built_in_dependency d.mod_id ≡ false)
      × (member d.mod_id installed ≡ false)
      × (member d.mod_id old ≡ false)
unfolding is_added
is_added-true old installed d h = (ground arith, ground arith, ground arith)

is_added_of :
    (old installed : List Text) (d : Dependency)
    → is_built_in_dependency d.mod_id ≡ false
    → member d.mod_id installed ≡ false
    → member d.mod_id old ≡ false
    → is_added old installed d ≡ true
unfolding is_added
is_added_of old installed d h k l = rw (h, k, l)

module _ (old : List Text) (target : List Dependency) (installed : List Text) where
  -- The added dependencies are exactly those, with their order and fields kept.
  dependency_diff-IsAdded :
      (d : Dependency)
      → In d (dependency_diff old target installed).0 ↔ IsAdded old target installed d
  unfolding dependency_diff
  dependency_diff-IsAdded d = (to, from)
    where
      to : In d (keep (is_added old installed) target) → IsAdded old target installed d
      to m =
          let (needed, passes) = (In-keep (is_added old installed) d target).0 m in
          let (foreign, absent, undeclared) = is_added-true old installed d passes in
          record {
            needed = needed;
            foreign = foreign;
            absent = (not-member_iff d.mod_id installed).0 absent;
            undeclared = (not-member_iff d.mod_id old).0 undeclared;
          }

      from : IsAdded old target installed d → In d (keep (is_added old installed) target)
      from a = (In-keep (is_added old installed) d target).1 (
        a.needed,
        is_added_of old installed d a.foreign ((not-member_iff d.mod_id installed).1 a.absent)
            ((not-member_iff d.mod_id old).1 a.undeclared),
      )

  still_required-false :
      (id : Text) (ds : List Dependency)
      → (still_required id ds ≡ false) ↔ All (λ d. d.mod_id ≢ id) ds
  unfolding still_required
  still_required-false id [] = (λ _. tt, λ _. refl)
  still_required-false id (d ∷ ds) = (
    λ h. (
      λ e. ground (arith, h, (eq_text_iff d.mod_id id).1 e),
      (still_required-false id ds).0 (ground (arith, h)),
    ),
    λ a. ground (arith, a.0, eq_text_iff d.mod_id id, (still_required-false id ds).1 a.1),
  )

  is_removed-true :
      (id : Text)
      → is_removed target installed id ≡ true
      → (is_built_in_dependency id ≡ false)
        × (still_required id target ≡ false)
        × (member id installed ≡ true)
  unfolding is_removed
  is_removed-true id h = (ground arith, ground arith, ground arith)

  is_removed_of :
      (id : Text)
      → is_built_in_dependency id ≡ false
      → still_required id target ≡ false
      → member id installed ≡ true
      → is_removed target installed id ≡ true
  unfolding is_removed
  is_removed_of id h k l = rw (h, k, l)

  -- The removed dependencies are exactly those, by their ids alone.
  dependency_diff-IsRemoved :
      (d : Dependency)
      → In d (dependency_diff old target installed).1
        ↔ ((id : Text) × (bare_dependency id ≡ d) × IsRemoved old target installed id)
  unfolding dependency_diff
  dependency_diff-IsRemoved d = (to, from)
    where
      to :
          In d (map bare_dependency (keep (is_removed target installed) old))
          → (id : Text) × (bare_dependency id ≡ d) × IsRemoved old target installed id
      to m =
          let (id, there, e) = In-map bare_dependency d _ m in
          let (declared, passes) = (In-keep (is_removed target installed) id old).0 there in
          let (foreign, unneeded, present) = is_removed-true id passes in
          (
            id,
            e,
            record {
              declared = declared;
              foreign = foreign;
              present = (member_iff id installed).0 present;
              unneeded = (still_required-false id target).0 unneeded;
            },
          )

      from :
          ((id : Text) × (bare_dependency id ≡ d) × IsRemoved old target installed id)
          → In d (map bare_dependency (keep (is_removed target installed) old))
      from (id, e, r) = rw (← e) (
          In-map_of_In bare_dependency id _ (
            (In-keep (is_removed target installed) id old).1 (
              r.declared,
              is_removed_of id r.foreign ((still_required-false id target).1 r.unneeded)
                  ((member_iff id installed).1 r.present),
            )))

  -- The added dependencies are exactly those of the target that are not part of the game, not
  -- installed and not declared by the installed version; the removed ones are exactly those that the
  -- installed version declares, that are not part of the game, that are installed and that the
  -- target does not need, each by its id alone.
  pub dependency_diff-parts :
      (d : Dependency)
      → (In d (dependency_diff old target installed).0 ↔ IsAdded old target installed d)
        × (In d (dependency_diff old target installed).1
            ↔ ((id : Text) × (bare_dependency id ≡ d) × IsRemoved old target installed id))
  dependency_diff-parts d = (dependency_diff-IsAdded d, dependency_diff-IsRemoved d)
