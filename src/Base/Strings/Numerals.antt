-- ===== src/Base/Strings/Numerals.antt =====
-- strconv.Atoi: the range of what it returns.
use Prim.Native.Nat.{ℕ, ◌≤◌}
use mathlib.Core.Path.{◌≡◌}
use mathlib.Core.Bool.{true}
use mathlib.Core.Option.{Option, none, some}
use mathlib.Core.List.{◌∷◌}
use native.Mathlib.Omega.{arith}
use vintagestory_go.Base.Int.{ℤ, pos, negsuc, max_int64}
use vintagestory_go.Base.Strings.{Text, is_digit, atoi, unsigned, positive_int}

-- From 0 to the largest int64.
abbrev pub InRange : ℤ → Type 0
InRange (pos n) = n ≤ max_int64
InRange (negsuc n) = ⊥

positive_int-InRange : (o : Option ℕ) → InRange (positive_int o).0
unfolding positive_int
positive_int-InRange none = omega arith
positive_int-InRange (some n) = ground arith

-- A text that starts with a digit is read as a number of the range, also on overflow.
pub atoi-InRange : (c : ℕ) (s : Text) → is_digit c ≡ true → InRange (atoi (c ∷ s)).0
unfolding atoi is_digit
atoi-InRange c s h = ground (arith, h, positive_int-InRange (unsigned (c ∷ s)))
