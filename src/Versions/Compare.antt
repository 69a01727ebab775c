-- ===== src/Versions/Compare.antt =====
-- versions/versions.go: splitVersion, compareVersions and trailingVersionOrder. The results 1, 0 and
-- -1 are gt, eq and lt.
pub mod Padded
pub mod Order
use Prim.Native.Nat.{Ordering, compare}
use vintagestory_go.Base.{
  ℕ, Bool, ◌&&◌, ◌||◌, List, [], ◌∷◌, ◌++◌, Text, text, is_empty, leb, ◌==◌, if◌then◌else◌,
}
use vintagestory_go.Base.Int.{pos_part}
use vintagestory_go.Base.Strings.{trim_space, to_lower, trim_prefix, is_digit, atoi, lt_text}

-- versionPart: a number, or a text with a nil number.
pub data Part : Type 0 where
  number : ℕ → Part
  word : Text → Part

-- unicode.IsLetter of a byte read as a rune, so of Latin-1.
is_letter : ℕ → Bool
is_letter c =
    (leb b'a' c && leb c b'z')
    || (leb b'A' c && leb c b'Z')
    || c == 0xaa
    || c == 0xb5
    || c == 0xba
    || (leb 0xc0 c && leb c 0xd6)
    || (leb 0xd8 c && leb c 0xf6)
    || (leb 0xf8 c && leb c 0xff)

pub data Class : Type 0 where
  digit letter separator : Class

class_of : ℕ → Class
unfolding is_digit is_letter
class_of c = if is_digit c then digit else if is_letter c then letter else separator

-- The run that the loops over j have read so far: none, digits, or letters.
pub data Reading : Type 0 where
  nothing : Reading
  digits letters : Text → Reading

-- n, _ := strconv.Atoi(run): the value is cut to the range of int.
part_of_digits : Text → Part
part_of_digits run = number (pos_part (atoi run).0)

scan : Reading → Text → List Part
unfolding class_of part_of_digits
scan nothing [] = []
scan (digits d) [] = part_of_digits d ∷ []
scan (letters w) [] = word w ∷ []
scan nothing (c ∷ s) = elim (class_of c) [
  | digit ↦ scan (digits (c ∷ [])) s
  | letter ↦ scan (letters (c ∷ [])) s
  | separator ↦ scan nothing s
]
scan (digits d) (c ∷ s) = elim (class_of c) [
  | digit ↦ scan (digits (d ++ c ∷ [])) s
  | letter ↦ part_of_digits d ∷ scan (letters (c ∷ [])) s
  | separator ↦ part_of_digits d ∷ scan nothing s
]
scan (letters w) (c ∷ s) = elim (class_of c) [
  | digit ↦ word w ∷ scan (digits (c ∷ [])) s
  | letter ↦ scan (letters (w ++ c ∷ [])) s
  | separator ↦ word w ∷ scan nothing s
]

unfoldable pub split_version : Text → List Part
unfolding scan
split_version v = scan nothing (trim_prefix (to_lower (trim_space v)) (text "v"))

unfoldable pub trailing_version_order : List Part → Ordering
trailing_version_order [] = Ordering.eq
trailing_version_order (number n ∷ ps) =
    let rest = trailing_version_order ps in if n == 0 then rest else Ordering.gt
trailing_version_order (word t ∷ ps) =
    let rest = trailing_version_order ps in if is_empty t then rest else Ordering.lt

abbrev pub negate : Ordering → Ordering
negate Ordering.lt = Ordering.gt
negate Ordering.eq = Ordering.eq
negate Ordering.gt = Ordering.lt

-- One round of the loop on the two parts at i: `eq` goes on.
unfoldable pub compare_part : Part → Part → Ordering
compare_part (number x) (number y) = compare x y
compare_part (number x) (word t) = Ordering.gt
compare_part (word s) (number y) = Ordering.lt
compare_part (word s) (word t) =
    if lt_text t s then Ordering.gt else if lt_text s t then Ordering.lt else Ordering.eq

abbrev pub or_next : Ordering → Ordering → Ordering
or_next Ordering.lt o = Ordering.lt
or_next Ordering.eq o = o
or_next Ordering.gt o = Ordering.gt

unfoldable pub compare_parts : List Part → List Part → Ordering
unfolding compare_part trailing_version_order
compare_parts [] [] = Ordering.eq
compare_parts [] (y ∷ ys) = negate (trailing_version_order (y ∷ ys))
compare_parts (x ∷ xs) [] = trailing_version_order (x ∷ xs)
compare_parts (x ∷ xs) (y ∷ ys) = or_next (compare_part x y) (compare_parts xs ys)

unfoldable pub compare_versions : Text → Text → Ordering
unfolding split_version compare_parts
compare_versions a b = compare_parts (split_version a) (split_version b)
