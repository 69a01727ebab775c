-- ===== src/Modpack/Select/Newest.antt =====
-- modpack/modpack.go newestVersion: how its result compares with the other versions.
use Prim.Native.Nat.{Ordering}
use vintagestory_go.Base.{
  ◌≡◌, refl, ◌≢◌, ◌⊎◌, inl, inr, Bool, true, false, Option, none, some, List, [], ◌∷◌, Text,
  if◌then◌else◌, arith, Bool-cases, All, In,
}
use vintagestory_go.Modpack.Semver.{Semver, SemverLaws, compare_versions, flip}
use vintagestory_go.Modpack.Semver.Order.{
  compare_versions_trans, compare_versions-flip, compare_versions_refl,
}
use vintagestory_go.Modpack.Types.{ModVersion}
use vintagestory_go.Modpack.Select.{
  xor, is_newer, is_stable_release, is_upgrade_target, better, replace_best, newest_from,
  newest_version,
}

not_newer : (o : Ordering) → is_newer o ≡ false → o ≢ Ordering.gt
not_newer Ordering.lt h e = cc
not_newer Ordering.eq h e = cc
not_newer Ordering.gt h e = cc

is_newer-false : (o : Ordering) → o ≢ Ordering.gt → is_newer o ≡ false
is_newer-false Ordering.lt h = refl
is_newer-false Ordering.eq h = refl
is_newer-false Ordering.gt h = absurd (h refl)

module _ (s : Semver) where
  -- `x` is preferred to `y`: a stable release to another, and of the same kind the newer one.
  abbrev pub beats : ModVersion → ModVersion → Bool
  beats x y =
      if xor (is_stable_release x.release_type) (is_stable_release y.release_type)
      then is_stable_release x.release_type
      else is_newer (compare_versions s x.version y.version)

  better-beats : (best x : ModVersion) → better s best x ≡ (if beats x best then x else best)
  unfolding better
  better-beats best x = ground arith

  -- An offer that no update of the list beats.
  abbrev pub IsUnbeaten : Text → ModVersion → ModVersion → Type 0
  IsUnbeaten installed best x = (is_upgrade_target s installed x ≡ false) ⊎ (beats x best ≡ false)

  better-cases : (best x : ModVersion) → (better s best x ≡ x) ⊎ (better s best x ≡ best)
  better-cases best x = elim (Bool-cases (beats x best)) [
    | inl h ↦ inl (rw (better-beats best x) (rw h refl))
    | inr h ↦ inr (rw (better-beats best x) (rw h refl))
  ]

  -- The best version so far is an update.
  abbrev Upgrades : Text → Option ModVersion → Type 0
  Upgrades installed none = Unit {0}
  Upgrades installed (some b) = is_upgrade_target s installed b ≡ true

  replace_best-upgrade :
      (installed : Text) (o : Option ModVersion) (x : ModVersion)
      → Upgrades installed o
      → is_upgrade_target s installed x ≡ true
      → Upgrades installed (replace_best s o x)
  unfolding replace_best
  replace_best-upgrade installed none x h k = k
  replace_best-upgrade installed (some best) x h k = elim (better-cases best x) [
    | inl e ↦ rw e k
    | inr e ↦ rw e h
  ]

  module _ (laws : SemverLaws s) where
    newer_asym :
        (a b : Text)
        → is_newer (compare_versions s a b) ≡ true
        → is_newer (compare_versions s b a) ≡ false
    newer_asym a b h =
        lem (compare_versions s a b) (compare_versions s b a) (compare_versions-flip s laws a b) h
      where
        lem : (o p : Ordering) → p ≡ flip o → is_newer o ≡ true → is_newer p ≡ false
        lem Ordering.lt p e k = cc
        lem Ordering.eq p e k = cc
        lem Ordering.gt p e k = rw e

    newer_negtrans :
        (a b c : Text)
        → is_newer (compare_versions s a b) ≡ false
        → is_newer (compare_versions s b c) ≡ false
        → is_newer (compare_versions s a c) ≡ false
    newer_negtrans a b c h k =
        is_newer-false _ (compare_versions_trans s laws a b c (not_newer _ h) (not_newer _ k))

    beats_asym : (x y : ModVersion) → beats x y ≡ true → beats y x ≡ false
    beats_asym x y h = ground (arith, newer_asym x.version y.version)

    beats_negtrans :
        (x y z : ModVersion) → beats x y ≡ false → beats y z ≡ false → beats x z ≡ false
    beats_negtrans x y z h k = ground (arith, newer_negtrans x.version y.version z.version)

    beats_irrefl : (x : ModVersion) → beats x x ≡ false
    beats_irrefl x = ground (arith, compare_versions_refl s laws x.version)

    -- The best of two is beaten by neither.
    better-unbeaten :
        (best x : ModVersion)
        → (beats x (better s best x) ≡ false) × (beats best (better s best x) ≡ false)
    better-unbeaten best x = elim (Bool-cases (beats x best)) [
      | inl h ↦ rw (better-beats best x) (rw h (beats_irrefl x, beats_asym x best h))
      | inr h ↦ rw (better-beats best x) (rw h (h, beats_irrefl best))
    ]

    module _ (installed : Text) where
      abbrev Kept : Option ModVersion → ModVersion → Type 0
      Kept none b = Unit {0}
      Kept (some best) b = beats best b ≡ false

      record IsNewest (o : Option ModVersion) (xs : List ModVersion) (b : ModVersion) : Type 0 where
        source : (o ≡ some b) ⊎ In b xs
        upgrade : is_upgrade_target s installed b ≡ true
        kept : Kept o b
        unbeaten : All (IsUnbeaten installed b) xs

      -- One round that takes the version into account.
      IsNewest-cons :
          (o : Option ModVersion) (x : ModVersion) (xs : List ModVersion) (b : ModVersion)
          → IsNewest (replace_best s o x) xs b
          → IsNewest o (x ∷ xs) b
      unfolding replace_best
      IsNewest-cons none x xs b n = record {
        source = inr (elim n.source [ inl e ↦ inl (ground arith) | inr m ↦ inr m ]);
        upgrade = n.upgrade;
        kept = tt;
        unbeaten = (inr n.kept, n.unbeaten);
      }
      IsNewest-cons (some best) x xs b n =
          let (over_x, over_best) = better-unbeaten best x in
          record {
            source = elim n.source [
              | inl e ↦ elim (better-cases best x) [
                | inl k ↦ inr (inl (ground (arith, e, k)))
                | inr k ↦ inl (ground (arith, e, k))
              ]
              | inr m ↦ inr (inr m)
            ];
            upgrade = n.upgrade;
            kept = beats_negtrans best (better s best x) b over_best n.kept;
            unbeaten = (inr (beats_negtrans x (better s best x) b over_x n.kept), n.unbeaten);
          }

      newest_from-IsNewest :
          (xs : List ModVersion) (o : Option ModVersion) (b : ModVersion)
          → Upgrades installed o
          → newest_from s installed o xs ≡ some b
          → IsNewest o xs b
      unfolding newest_from
      newest_from-IsNewest [] none b h e = absurd (ground (arith, e))
      newest_from-IsNewest [] (some best) b h e = record {
        source = inl e;
        upgrade = ground (arith, h, e);
        kept = ground (arith, e, beats_irrefl best);
        unbeaten = tt;
      }
      newest_from-IsNewest (x ∷ xs) o b h e = elim (Bool-cases (is_upgrade_target s installed x)) [
        | inl up ↦ IsNewest-cons o x xs b (
            newest_from-IsNewest xs (replace_best s o x) b (replace_best-upgrade installed o x h up)
              (rw up at e))
        | inr down ↦
            let n = newest_from-IsNewest xs o b h (rw down at e) in
            record {
              source = elim n.source [ inl k ↦ inl k | inr m ↦ inr (inr m) ];
              upgrade = n.upgrade;
              kept = n.kept;
              unbeaten = (inl down, n.unbeaten);
            }
      ]

      -- newestVersion returns an update from the list, and one that no update of the list beats: a
      -- stable release is preferred to any other, and a newer version to an older one of its kind.
      pub newest_version-IsUnbeaten :
          (xs : List ModVersion) (b : ModVersion)
          → newest_version s xs installed ≡ some b
          → In b xs × (is_upgrade_target s installed b ≡ true) × All (IsUnbeaten installed b) xs
      unfolding newest_version
      newest_version-IsUnbeaten xs b e =
          let n = newest_from-IsNewest xs none b tt e in
          (elim n.source [ inl k ↦ absurd (ground (arith, k)) | inr m ↦ m ], n.upgrade, n.unbeaten)

newest_from-none :
    (s : Semver) (installed : Text) (xs : List ModVersion) (o : Option ModVersion)
    → newest_from s installed o xs ≡ none
    → (o ≡ none) × All (λ x. is_upgrade_target s installed x ≡ false) xs
unfolding newest_from replace_best
newest_from-none s installed [] o e = (e, tt)
newest_from-none s installed (x ∷ xs) o e = elim (Bool-cases (is_upgrade_target s installed x)) [
  | inl up ↦
      let (gone, _) = newest_from-none s installed xs (replace_best s o x) (rw up at e) in
      absurd (never o gone)
  | inr down ↦
      let (empty, rest) = newest_from-none s installed xs o (rw down at e) in (empty, (down, rest))
]
  where
    never : (p : Option ModVersion) → replace_best s p x ≡ none → ⊥
    never none k = absurd (ground (arith, k))
    never (some b) k = absurd (ground (arith, k))

-- newestVersion finds nothing only if no version of the list is an update.
pub newest_version-none :
    (s : Semver) (installed : Text) (xs : List ModVersion)
    → newest_version s xs installed ≡ none
    → All (λ x. is_upgrade_target s installed x ≡ false) xs
unfolding newest_version
newest_version-none s installed xs e = (newest_from-none s installed xs none e).1

newest_from-upgrade :
    (s : Semver) (installed : Text) (xs : List ModVersion) (o : Option ModVersion) (b : ModVersion)
    → Upgrades s installed o
    → newest_from s installed o xs ≡ some b
    → is_upgrade_target s installed b ≡ true
unfolding newest_from
newest_from-upgrade s installed [] (some best) b h e = ground (arith, h, e)
newest_from-upgrade s installed [] none b h e = absurd (ground (arith, e))
newest_from-upgrade s installed (x ∷ xs) o b h e =
    elim (Bool-cases (is_upgrade_target s installed x)) [
      | inl up ↦
          newest_from-upgrade s installed xs (replace_best s o x) b
            (replace_best-upgrade s installed o x h up) (rw up at e)
      | inr down ↦ newest_from-upgrade s installed xs o b h (rw down at e)
    ]

-- Whatever the order of versions, newestVersion returns only updates.
pub newest_version-upgrade :
    (s : Semver) (installed : Text) (xs : List ModVersion) (b : ModVersion)
    → newest_version s xs installed ≡ some b
    → is_upgrade_target s installed b ≡ true
unfolding newest_version
newest_version-upgrade s installed xs b e = newest_from-upgrade s installed xs none b tt e
