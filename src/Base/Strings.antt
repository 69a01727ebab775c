-- ===== src/Base/Strings.antt =====
-- A Go string is the list of its bytes. Comparison, prefixes, substrings and splitting are those of
-- Go on any bytes; the case maps and the white space are those of the ASCII range, so TrimSpace,
-- ToLower, Fields and EqualFold are Go's on ASCII text and leave other bytes alone.
pub mod Numerals
pub mod Splits
use Prim.Native.Nat.{ℕ, zero, suc, ◌+◌, ◌-◌, ◌*◌, ◌/◌, ◌%◌}
use Prim.Native.Char.{code}
use Prim.Native.String.{String}
use mathlib.Core.Path.{◌≡◌, refl}
use mathlib.Core.Logic.{◌↔◌}
use mathlib.Core.Bool.{Bool, true, false, ◌&&◌, ◌||◌}
use mathlib.Core.Option.{Option, none, some}
use mathlib.Core.List.{List, [], ◌∷◌, ◌++◌, reverse}
use native.Mathlib.Omega.{arith}
use vintagestory_go.Base.Tests.{ltb, leb, ◌==◌, if◌then◌else◌}
use vintagestory_go.Base.Lists.{length, drop}
use vintagestory_go.Base.Int.{ℤ, pos, negsuc, max_int64}

abbrev pub Text : Type 0
Text = List ℕ

abbrev pub text : String → Text
text String.[] = []
text (String.◌∷◌ c s) = code c ∷ text s

-- a == b
unfoldable pub eq_text : Text → Text → Bool
eq_text [] [] = true
eq_text (a ∷ s) (b ∷ t) = a == b && eq_text s t
eq_text _ _ = false

pub eq_text_refl : (s : Text) → eq_text s s ≡ true
unfolding eq_text
eq_text_refl [] = refl
eq_text_refl (a ∷ s) = ground (arith, eq_text_refl s)

eq_text→eq : (s t : Text) → eq_text s t ≡ true → s ≡ t
unfolding eq_text
eq_text→eq [] [] h = refl
eq_text→eq [] (b ∷ t) h = ground arith
eq_text→eq (a ∷ s) [] h = ground arith
eq_text→eq (a ∷ s) (b ∷ t) h = ground (arith, eq_text→eq s t)

pub eq_text_iff : (s t : Text) → (eq_text s t ≡ true) ↔ (s ≡ t)
eq_text_iff s t = (eq_text→eq s t, λ e. ground (arith, e, eq_text_refl s))

-- s == ""
abbrev pub is_empty : Text → Bool
is_empty [] = true
is_empty (_ ∷ _) = false

-- a < b, byte by byte
unfoldable pub lt_text : Text → Text → Bool
lt_text [] [] = false
lt_text [] (_ ∷ _) = true
lt_text (_ ∷ _) [] = false
lt_text (a ∷ s) (b ∷ t) = ltb a b || (a == b && lt_text s t)

-- strings.HasPrefix(s, prefix)
unfoldable pub has_prefix : Text → Text → Bool
has_prefix s [] = true
has_prefix [] (_ ∷ _) = false
has_prefix (a ∷ s) (b ∷ t) = a == b && has_prefix s t

-- strings.HasSuffix(s, suffix)
unfoldable pub has_suffix : Text → Text → Bool
unfolding has_prefix
has_suffix s t = has_prefix (reverse s) (reverse t)

-- strings.TrimPrefix(s, prefix)
unfoldable pub trim_prefix : Text → Text → Text
unfolding has_prefix
trim_prefix s t = if has_prefix s t then drop (length t) s else s

-- strings.TrimSuffix(s, suffix)
unfoldable pub trim_suffix : Text → Text → Text
unfolding trim_prefix
trim_suffix s t = reverse (trim_prefix (reverse s) (reverse t))

-- strings.Contains(s, part)
unfoldable pub contains : Text → Text → Bool
unfolding has_prefix
contains [] t = has_prefix [] t
contains (a ∷ s) t = has_prefix (a ∷ s) t || contains s t

abbrev pub is_space : ℕ → Bool
is_space c = c == 32 || (leb 9 c && leb c 13)

unfoldable pub trim_left : Text → Text
trim_left [] = []
trim_left (c ∷ s) = if is_space c then trim_left s else c ∷ s

-- strings.TrimSpace(s)
unfoldable pub trim_space : Text → Text
unfolding trim_left
trim_space s = reverse (trim_left (reverse (trim_left s)))

abbrev pub lower_byte : ℕ → ℕ
lower_byte c = if leb b'A' c && leb c b'Z' then c + 32 else c

-- strings.ToLower(s)
unfoldable pub to_lower : Text → Text
to_lower [] = []
to_lower (c ∷ s) = lower_byte c ∷ to_lower s

-- strings.EqualFold(a, b)
unfoldable pub equal_fold : Text → Text → Bool
unfolding eq_text to_lower
equal_fold a b = eq_text (to_lower a) (to_lower b)

abbrev push_field : Text → List Text → List Text
push_field [] fs = fs
push_field (c ∷ w) fs = (c ∷ w) ∷ fs

fields_from : Text → Text → List Text
fields_from word [] = push_field word []
fields_from word (c ∷ s) =
    let rest = fields_from [] s in
    let more = fields_from (word ++ c ∷ []) s in if is_space c then push_field word rest else more

-- strings.Fields(s)
unfoldable pub fields : Text → List Text
unfolding fields_from
fields s = fields_from [] s

split_from : ℕ → Text → Text → List Text
split_from sep word [] = word ∷ []
split_from sep word (c ∷ s) =
    let rest = split_from sep [] s in
    let more = split_from sep (word ++ c ∷ []) s in if c == sep then word ∷ rest else more

-- strings.Split(s, sep) for a separator of one byte
unfoldable pub split : Text → ℕ → List Text
unfolding split_from
split s sep = split_from sep [] s

-- strings.Join(parts, sep)
unfoldable pub join : List Text → Text → Text
join [] sep = []
join (p ∷ []) sep = p
join (p ∷ q ∷ ps) sep = p ++ sep ++ join (q ∷ ps) sep

-- slices of texts as sets: a Go map[string]struct{} built from a list
abbrev pub member : Text → List Text → Bool
member a [] = false
member a (x ∷ xs) = eq_text x a || member a xs

unfoldable pub is_digit : ℕ → Bool
is_digit c = leb b'0' c && leb c b'9'

-- The orders of Go's < on strings.
pub lt_text_irrefl : (s : Text) → lt_text s s ≡ false
unfolding lt_text
lt_text_irrefl [] = refl
lt_text_irrefl (a ∷ s) = ground (arith, lt_text_irrefl s)

pub lt_text_asym : (s t : Text) → lt_text s t ≡ true → lt_text t s ≡ false
unfolding lt_text
lt_text_asym [] [] h = refl
lt_text_asym [] (b ∷ t) h = refl
lt_text_asym (a ∷ s) [] h = ground arith
lt_text_asym (a ∷ s) (b ∷ t) h = ground (arith, lt_text_asym s t)

pub lt_text_negtrans :
    (s t u : Text) → lt_text s t ≡ false → lt_text t u ≡ false → lt_text s u ≡ false
unfolding lt_text
lt_text_negtrans s t [] h k = lem s
  where
    lem : (s : Text) → lt_text s [] ≡ false
    lem [] = refl
    lem (a ∷ s) = refl
lt_text_negtrans s [] (c ∷ u) h k = ground arith
lt_text_negtrans [] (b ∷ t) (c ∷ u) h k = ground arith
lt_text_negtrans (a ∷ s) (b ∷ t) (c ∷ u) h k = ground (arith, lt_text_negtrans s t u)

pub lt_text_total : (s t : Text) → lt_text s t ≡ false → lt_text t s ≡ false → s ≡ t
unfolding lt_text
lt_text_total [] [] h k = refl
lt_text_total [] (b ∷ t) h k = ground arith
lt_text_total (a ∷ s) [] h k = ground arith
lt_text_total (a ∷ s) (b ∷ t) h k = ground (arith, lt_text_total s t)

-- A digit run read from the left, as strconv does it.
digits_value : ℕ → Text → Option ℕ
digits_value acc [] = some acc
digits_value acc (c ∷ s) =
    let rest = digits_value (acc * 10 + (c - 48)) s in if is_digit c then rest else none

unsigned : Text → Option ℕ
unfolding digits_value is_digit
unsigned [] = none
unsigned (c ∷ s) = digits_value 0 (c ∷ s)

positive_int : Option ℕ → ℤ × Bool
positive_int none = (pos 0, false)
positive_int (some n) = if leb n max_int64 then (pos n, true) else (pos max_int64, false)

negative_int : Option ℕ → ℤ × Bool
negative_int none = (pos 0, false)
negative_int (some n) =
    if leb n (max_int64 + 1)
    then ((if n == 0 then pos 0 else negsuc (n - 1)), true)
    else (negsuc max_int64, false)

-- strconv.Atoi(s): the number, cut to the range of int on overflow, and whether there was no error.
unfoldable pub atoi : Text → ℤ × Bool
unfolding unsigned positive_int negative_int
atoi [] = (pos 0, false)
atoi (c ∷ s) =
    if c == b'-'
    then negative_int (unsigned s)
    else if c == b'+'
    then positive_int (unsigned s)
    else positive_int (unsigned (c ∷ s))

itoa_from : ℕ → ℕ → Text → Text
itoa_from zero n out = out
itoa_from (suc fuel) n out =
    let out' = (48 + n % 10) ∷ out in
    let rest = itoa_from fuel (n / 10) out' in if n / 10 == 0 then out' else rest

-- The decimal digits of a number; each round divides it by ten, so `suc n` rounds are enough.
unfoldable pub itoa : ℕ → Text
unfolding itoa_from
itoa n = itoa_from (suc n) n []

-- strconv.FormatInt(n, 10)
unfoldable pub format_int : ℤ → Text
unfolding itoa
format_int (pos n) = itoa n
format_int (negsuc n) = b'-' ∷ itoa (suc n)
