-- ===== src/Base/Strings/Splits.antt =====
-- strings.Split at the separators that are known.
use Prim.Native.Nat.{ℕ}
use mathlib.Core.Path.{◌≡◌, refl, sym, ap, ◌∙◌}
use mathlib.Core.Bool.{false}
use mathlib.Core.List.{[], ◌∷◌, ◌++◌}
use vintagestory_go.Base.Tests.{◌==◌, ==_refl}
use vintagestory_go.Base.Lists.{All}
use vintagestory_go.Base.Strings.{Text, split, split_from}

-- No byte of the text is the separator.
abbrev pub Lacks : ℕ → Text → Type 0
Lacks sep s = All (λ c. (c == sep) ≡ false) s

append_one : (w : Text) (c : ℕ) (s : Text) → (w ++ c ∷ []) ++ s ≡ w ++ (c ∷ s)
append_one [] c s = refl
append_one (a ∷ w) c s = ap (◌∷◌ a) (append_one w c s)

append_none : (w : Text) → w ++ [] ≡ w
append_none [] = refl
append_none (a ∷ w) = ap (◌∷◌ a) (append_none w)

split_from_whole : (sep : ℕ) (w s : Text) → Lacks sep s → split_from sep w s ≡ (w ++ s) ∷ []
unfolding split_from
split_from_whole sep w [] h = ap (λ (t : Text). t ∷ []) (sym (append_none w))
split_from_whole sep w (c ∷ s) h =
    rw (h.0)
      (split_from_whole sep (w ++ c ∷ []) s h.1 ∙ ap (λ (t : Text). t ∷ []) (append_one w c s))

split_from-append :
    (sep : ℕ) (w u s : Text)
    → Lacks sep u
    → split_from sep w (u ++ sep ∷ s) ≡ (w ++ u) ∷ split_from sep [] s
unfolding split_from
split_from-append sep w [] s h =
    rw (==_refl sep) (ap (λ (t : Text). t ∷ split_from sep [] s) (sym (append_none w)))
split_from-append sep w (c ∷ u) s h = rw (h.0) (
    split_from-append sep (w ++ c ∷ []) u s h.1
    ∙ ap (λ (t : Text). t ∷ split_from sep [] s) (append_one w c u))

pub split_whole : (sep : ℕ) (s : Text) → Lacks sep s → split s sep ≡ s ∷ []
unfolding split
split_whole sep s h = split_from_whole sep [] s h

pub split-append : (sep : ℕ) (u s : Text) → Lacks sep u → split (u ++ sep ∷ s) sep ≡ u ∷ split s sep
unfolding split
split-append sep u s h = split_from-append sep [] u s h
