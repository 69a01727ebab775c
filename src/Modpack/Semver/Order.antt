-- ===== src/Modpack/Semver/Order.antt =====
-- modpack/modpack.go CompareVersions as an order on strings.
use Prim.Native.Nat.{Ordering}
use vintagestory_go.Base.{
  ◌≡◌, refl, ap, ◌∙◌, ◌≢◌, inl, inr, true, false, [], ◌∷◌, Text, text, eq_text_iff, arith,
  Bool-cases,
}
use vintagestory_go.Base.Strings.{
  trim_space, to_lower, has_prefix, lt_text, lt_text_irrefl, lt_text_asym, lt_text_negtrans,
  lt_text_total,
}
use vintagestory_go.Modpack.Semver.{
  Semver, SemverLaws, flip, compare_text, normalize_semver, compare_normalized, compare_versions,
}

pub compare_text-flip : (a b : Text) → compare_text b a ≡ flip (compare_text a b)
unfolding compare_text
compare_text-flip a b =
    ground (
      arith,
      eq_text_iff a b,
      eq_text_iff b a,
      lt_text_asym a b,
      lt_text_asym b a,
      lt_text_total a b,
    )

compare_text-gt : (a b : Text) → compare_text a b ≡ Ordering.gt → lt_text b a ≡ true
unfolding compare_text
compare_text-gt a b h = ground (arith, eq_text_iff a b, lt_text_total a b)

lt_text-compare_text : (a b : Text) → lt_text b a ≡ true → compare_text a b ≡ Ordering.gt
unfolding compare_text
lt_text-compare_text a b h = ground (arith, eq_text_iff a b, lt_text_irrefl a, lt_text_asym b a)

compare_text-le : (a b : Text) → compare_text a b ≢ Ordering.gt → lt_text b a ≡ false
compare_text-le a b h = elim (Bool-cases (lt_text b a)) [
  | inl e ↦ absurd (h (lt_text-compare_text a b e))
  | inr e ↦ e
]

pub compare_text_trans :
    (a b c : Text)
    → compare_text a b ≢ Ordering.gt
    → compare_text b c ≢ Ordering.gt
    → compare_text a c ≢ Ordering.gt
compare_text_trans a b c h k e =
    let low = lt_text_negtrans c b a (compare_text-le b c k) (compare_text-le a b h) in
    cc (low, compare_text-gt a c e)

module _ (s : Semver) (laws : SemverLaws s) where
  normalized-flip :
      (x y a b : Text) → compare_normalized s y x b a ≡ flip (compare_normalized s x y a b)
  unfolding compare_normalized
  normalized-flip [] [] a b = compare_text-flip (to_lower a) (to_lower b)
  normalized-flip [] (d ∷ y) a b = refl
  normalized-flip (c ∷ x) [] a b = refl
  normalized-flip (c ∷ x) (d ∷ y) a b = laws.compare_flip (c ∷ x) (d ∷ y)

  normalized_trans :
      (x y z a b c : Text)
      → compare_normalized s x y a b ≢ Ordering.gt
      → compare_normalized s y z b c ≢ Ordering.gt
      → compare_normalized s x z a c ≢ Ordering.gt
  unfolding compare_normalized
  normalized_trans [] [] [] a b c h k =
      compare_text_trans (to_lower a) (to_lower b) (to_lower c) h k
  normalized_trans [] [] (f ∷ z) a b c h k = cc
  normalized_trans [] (e ∷ y) [] a b c h k = absurd (k refl)
  normalized_trans [] (e ∷ y) (f ∷ z) a b c h k = cc
  normalized_trans (d ∷ x) [] z a b c h k = absurd (h refl)
  normalized_trans (d ∷ x) (e ∷ y) [] a b c h k = absurd (k refl)
  normalized_trans (d ∷ x) (e ∷ y) (f ∷ z) a b c h k =
      laws.compare_trans (d ∷ x) (e ∷ y) (f ∷ z) h k

  -- Swapping the arguments of CompareVersions swaps older and newer.
  pub compare_versions-flip : (a b : Text) → compare_versions s b a ≡ flip (compare_versions s a b)
  unfolding compare_versions
  compare_versions-flip a b = normalized-flip (normalize_semver s a) (normalize_semver s b) a b

  -- "Not newer than" is transitive on all version strings, also where some are semantic versions and
  -- some are not.
  pub compare_versions_trans :
      (a b c : Text)
      → compare_versions s a b ≢ Ordering.gt
      → compare_versions s b c ≢ Ordering.gt
      → compare_versions s a c ≢ Ordering.gt
  unfolding compare_versions
  compare_versions_trans a b c =
      normalized_trans (normalize_semver s a) (normalize_semver s b) (normalize_semver s c) a b c

  pub compare_versions_refl : (a : Text) → compare_versions s a a ≡ Ordering.eq
  compare_versions_refl a = fixed (compare_versions s a a) (compare_versions-flip a a)
    where
      fixed : (o : Ordering) → o ≡ flip o → o ≡ Ordering.eq
      fixed Ordering.lt e = cc
      fixed Ordering.eq e = refl
      fixed Ordering.gt e = cc

  -- A strictly newer version is newer than all that the older one is not older than.
  pub compare_versions_gt_trans :
      (a b c : Text)
      → compare_versions s a b ≡ Ordering.gt
      → compare_versions s b c ≢ Ordering.lt
      → compare_versions s a c ≡ Ordering.gt
  compare_versions_gt_trans a b c h k = decide (compare_versions s a c) refl
    where
      back : compare_versions s a c ≢ Ordering.gt → ⊥
      back n = compare_versions_trans a c b n (λ e. k (compare_versions-flip c b ∙ ap flip e)) h

      decide : (o : Ordering) → compare_versions s a c ≡ o → compare_versions s a c ≡ Ordering.gt
      decide Ordering.gt e = e
      decide Ordering.lt e = absurd (back (λ g. cc))
      decide Ordering.eq e = absurd (back (λ g. cc))

capital-invalid : (s : Semver) → SemverLaws s → (v : Text) → s.is_valid (b'V' ∷ v) ≡ false
unfolding has_prefix
capital-invalid s laws v = elim (Bool-cases (s.is_valid (b'V' ∷ v))) [
  | inl e ↦ let p = laws.valid_v (b'V' ∷ v) e in cc
  | inr e ↦ e
]

-- A version that begins with a capital V is never read as a semantic version, though the code looks
-- for the letter in either case.
pub normalize_semver_capital :
    (s : Semver)
    → SemverLaws s
    → (v : Text) → trim_space (b'V' ∷ v) ≡ b'V' ∷ v
    → normalize_semver s (b'V' ∷ v) ≡ text ""
unfolding normalize_semver has_prefix to_lower
normalize_semver_capital s laws v t = rw t (rw (capital-invalid s laws v))
