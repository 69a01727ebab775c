-- ===== src/Modpack/Semver.antt =====
-- modpack/modpack.go: the comparison of version strings, over golang.org/x/mod/semver as an
-- interface with the documented laws of its order.
pub mod Order
use Prim.Native.Nat.{Ordering}
use vintagestory_go.Base.{
  ◌≡◌, ◌≢◌, Bool, true, false, not, ◌&&◌, ◌||◌, ◌++◌, Text, text, is_empty, eq_text, if◌then◌else◌,
}
use vintagestory_go.Base.Strings.{trim_space, to_lower, has_prefix, equal_fold, lt_text}

-- The functions of package semver that the code calls.
pub record Semver : Type 0 where
  pub is_valid : Text → Bool
  pub canonical : Text → Text
  pub prerelease : Text → Text
  pub compare : Text → Text → Ordering

abbrev pub flip : Ordering → Ordering
flip Ordering.lt = Ordering.gt
flip Ordering.eq = Ordering.eq
flip Ordering.gt = Ordering.lt

-- What the documentation of semver says: a valid version begins with "v" and so is not empty, nor is
-- its canonical form, and Compare orders versions by precedence.
pub record SemverLaws (s : Semver) : Type 0 where
  pub valid_v : (v : Text) → s.is_valid v ≡ true → has_prefix v (text "v") ≡ true
  pub canonical_nonempty : (v : Text) → s.is_valid v ≡ true → s.canonical v ≢ text ""
  pub compare_refl : (v : Text) → s.compare v v ≡ Ordering.eq
  pub compare_flip : (v w : Text) → s.compare w v ≡ flip (s.compare v w)
  pub compare_trans :
      (u v w : Text)
      → s.compare u v ≢ Ordering.gt
      → s.compare v w ≢ Ordering.gt
      → s.compare u w ≢ Ordering.gt

-- strings.Compare
unfoldable pub compare_text : Text → Text → Ordering
unfolding eq_text lt_text
compare_text a b =
    if eq_text a b then Ordering.eq else if lt_text a b then Ordering.lt else Ordering.gt

module _ (s : Semver) where
  with_v : Text → Text
  with_v v = if has_prefix (to_lower v) (text "v") then v else text "v" ++ v

  canonical_or_empty : Text → Text
  canonical_or_empty v = if s.is_valid v then s.canonical v else text ""

  unfoldable pub normalize_semver : Text → Text
  unfolding with_v canonical_or_empty
  normalize_semver v =
      if is_empty (trim_space v) then text "" else canonical_or_empty (with_v (trim_space v))

  -- The four cases of CompareVersions, on the normalized versions x and y.
  compare_normalized : Text → Text → Text → Text → Ordering
  compare_normalized x y a b =
      if not (is_empty x) && not (is_empty y)
      then s.compare x y
      else if not (is_empty x)
      then Ordering.gt
      else if not (is_empty y)
      then Ordering.lt
      else compare_text (to_lower a) (to_lower b)

  unfoldable pub compare_versions : Text → Text → Ordering
  unfolding compare_normalized normalize_semver
  compare_versions a b = compare_normalized (normalize_semver a) (normalize_semver b) a b

  equal_normalized : Text → Text → Text → Text → Bool
  equal_normalized x y a b =
      if not (is_empty x) && not (is_empty y) then eq_text x y else equal_fold a b

  unfoldable pub version_equals : Text → Text → Bool
  unfolding equal_normalized normalize_semver
  version_equals a b =
      if is_empty a || is_empty b
      then equal_fold a b
      else equal_normalized (normalize_semver a) (normalize_semver b) a b

  unfoldable pub is_prerelease_version : Text → Bool
  unfolding normalize_semver
  is_prerelease_version v =
      if is_empty (normalize_semver v)
      then false
      else not (is_empty (s.prerelease (normalize_semver v)))
