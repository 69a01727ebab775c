-- ===== src/Versions/Compare/Padded.antt =====
-- versions/versions.go compareVersions, and the lexicographic comparison of versions padded with zeros.
use Prim.Native.Nat.{Ordering}
use vintagestory_go.Base.{
  ℕ, zero, suc, ◌≡◌, refl, sym, ap, ◌∙◌, false, List, [], ◌∷◌, ◌++◌, Text, text, is_empty, arith,
  All,
}
use vintagestory_go.Base.Strings.{trim_space, to_lower, trim_prefix, lt_text_asym}
use vintagestory_go.Versions.Compare.{
  Part, number, word, Reading, nothing, digits, letters, part_of_digits, scan, split_version,
  trailing_version_order, negate, compare_part, compare_parts, compare_versions, or_next,
}

-- An endless row of zeros behind each version.
abbrev pub nought : Part
nought = number 0

unfoldable pub padded : List Part → List Part → Ordering
padded [] [] = Ordering.eq
padded [] (y ∷ ys) = or_next (compare_part nought y) (padded [] ys)
padded (x ∷ xs) [] = or_next (compare_part x nought) (padded xs [])
padded (x ∷ xs) (y ∷ ys) = or_next (compare_part x y) (padded xs ys)

-- A part that splitVersion makes: a text is not empty.
abbrev pub IsProper : Part → Type 0
IsProper (number n) = Unit {0}
IsProper (word t) = is_empty t ≡ false

trailing-padded : (ps : List Part) → All IsProper ps → trailing_version_order ps ≡ padded ps []
unfolding trailing_version_order padded compare_part
trailing-padded [] h = refl
trailing-padded (number zero ∷ ps) h = trailing-padded ps h.1
trailing-padded (number (suc n) ∷ ps) h = ground arith
trailing-padded (word t ∷ ps) h = ground (arith, h.0)

compare_part-negate : (x y : Part) → compare_part y x ≡ negate (compare_part x y)
unfolding compare_part
compare_part-negate (number x) (number y) = ground arith
compare_part-negate (number x) (word t) = refl
compare_part-negate (word s) (number y) = refl
compare_part-negate (word s) (word t) = ground (arith, lt_text_asym s t)

or_next-negate : (o p : Ordering) → or_next (negate o) (negate p) ≡ negate (or_next o p)
or_next-negate Ordering.lt p = refl
or_next-negate Ordering.eq p = refl
or_next-negate Ordering.gt p = refl

both-negate :
    (x y : Part) (o p : Ordering)
    → p ≡ negate o
    → or_next (compare_part y x) p ≡ negate (or_next (compare_part x y) o)
both-negate x y o p e = rw (compare_part-negate x y, e) (or_next-negate (compare_part x y) o)

pub padded-negate : (xs ys : List Part) → padded ys xs ≡ negate (padded xs ys)
unfolding padded
padded-negate [] [] = refl
padded-negate [] (y ∷ ys) = both-negate nought y _ _ (padded-negate [] ys)
padded-negate (x ∷ xs) [] = both-negate x nought _ _ (padded-negate xs [])
padded-negate (x ∷ xs) (y ∷ ys) = both-negate x y _ _ (padded-negate xs ys)

compare_parts-padded :
    (xs ys : List Part) → All IsProper xs → All IsProper ys → compare_parts xs ys ≡ padded xs ys
unfolding compare_parts padded
compare_parts-padded [] [] h k = refl
compare_parts-padded [] (y ∷ ys) h k =
    ap negate (trailing-padded (y ∷ ys) k) ∙ sym (padded-negate (y ∷ ys) [])
compare_parts-padded (x ∷ xs) [] h k = trailing-padded (x ∷ xs) h
compare_parts-padded (x ∷ xs) (y ∷ ys) h k =
    ap (or_next (compare_part x y)) (compare_parts-padded xs ys h.1 k.1)

-- The texts that the scanner collects are not empty.
abbrev IsStarted : Reading → Type 0
IsStarted nothing = Unit {0}
IsStarted (digits d) = Unit {0}
IsStarted (letters w) = is_empty w ≡ false

extended : (w : Text) (c : ℕ) → is_empty (w ++ c ∷ []) ≡ false
extended [] c = refl
extended (a ∷ w) c = refl

scan-IsProper : (r : Reading) (s : Text) → IsStarted r → All IsProper (scan r s)
unfolding scan part_of_digits
scan-IsProper nothing [] h = tt
scan-IsProper (digits d) [] h = (tt, tt)
scan-IsProper (letters w) [] h = (h, tt)
scan-IsProper nothing (c ∷ s) h = ground (
  arith,
  scan-IsProper (digits (c ∷ [])) s tt,
  scan-IsProper (letters (c ∷ [])) s refl,
  scan-IsProper nothing s tt,
)
scan-IsProper (digits d) (c ∷ s) h = ground (
  arith,
  scan-IsProper (digits (d ++ c ∷ [])) s tt,
  scan-IsProper (letters (c ∷ [])) s refl,
  scan-IsProper nothing s tt,
)
scan-IsProper (letters w) (c ∷ s) h = ground (
  arith,
  scan-IsProper (digits (c ∷ [])) s tt,
  scan-IsProper (letters (w ++ c ∷ [])) s (extended w c),
  scan-IsProper nothing s tt,
)

split_version-IsProper : (v : Text) → All IsProper (split_version v)
unfolding split_version
split_version-IsProper v =
    scan-IsProper nothing (trim_prefix (to_lower (trim_space v)) (text "v")) tt

-- compareVersions is the lexicographic order of the parts of the two versions, each padded with
-- zeros, where numbers compare as numbers, texts by their bytes, and a text comes before a number.
pub compare_versions-padded :
    (a b : Text) → compare_versions a b ≡ padded (split_version a) (split_version b)
unfolding compare_versions
compare_versions-padded a b =
    compare_parts-padded (split_version a) (split_version b) (split_version-IsProper a)
      (split_version-IsProper b)
