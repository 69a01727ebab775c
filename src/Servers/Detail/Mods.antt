-- ===== src/Servers/Detail/Mods.antt =====
-- servers/parser.go parseServerDetail: the link to a mod, `name@version`.
use vintagestory_go.Base.{
  ℕ, zero, suc, ltb, ◌==◌, ◌≡◌, ◌⊎◌, inl, inr, refl, ap, true, false, Option, none, some, [], ◌∷◌,
  ◌++◌, length, take, drop, Text, is_empty, Bool-cases, arith,
}
use vintagestory_go.Base.Strings.Splits.{Lacks}
use vintagestory_go.Servers.Types.{Mod}
use vintagestory_go.Servers.Detail.{last_index, mod_at, parse_mod}

-- The last place of a byte: in front of it and after it, with none after it; or nowhere.
abbrev IsLast : Text → ℕ → Option ℕ → Type 0
IsLast s sep none = Lacks sep s
IsLast s sep (some i) = (take i s ++ sep ∷ drop (suc i) s ≡ s) × Lacks sep (drop (suc i) s)

last_index-IsLast : (s : Text) (sep : ℕ) → IsLast s sep (last_index s sep)
unfolding last_index
last_index-IsLast [] sep = tt
last_index-IsLast (c ∷ s) sep = go (last_index s sep) refl (last_index-IsLast s sep)
  where
    go :
        (o : Option ℕ)
        → last_index s sep ≡ o
        → IsLast s sep o
        → IsLast (c ∷ s) sep (last_index (c ∷ s) sep)
    go none e h = elim (Bool-cases (c == sep)) [
      | inl k ↦ rw (last_index, e) (rw k (ground (arith, k), h))
      | inr k ↦ rw (last_index, e) (rw k (k, h))
    ]
    go (some i) e h = rw (last_index, e) (ap (◌∷◌ c) h.0, h.1)

-- What the fields of a mod are: the parts of the text around its last @, which is not in front; or
-- all of the text.
abbrev pub IsSplit : Text → Mod → Type 0
IsSplit label m =
    ((m.name ≡ label) × (m.version ≡ []))
    ⊎ ((m.name ++ b'@' ∷ m.version ≡ label) × (is_empty m.name ≡ false) × Lacks b'@' m.version)

take_present :
    (i : ℕ) (s t : Text) → take (suc i) s ++ b'@' ∷ t ≡ s → is_empty (take (suc i) s) ≡ false
take_present i [] t h = absurd (ground (arith, h))
take_present i (c ∷ s) t h = refl

mod_at-IsSplit :
    (href label : Text) (o : Option ℕ) → IsLast label b'@' o → IsSplit label (mod_at href label o)
mod_at-IsSplit href label none h = inl (refl, refl)
mod_at-IsSplit href label (some zero) h = inl (refl, refl)
mod_at-IsSplit href label (some (suc i)) h =
    let later : ltb 0 (suc i) ≡ true = ground arith in
    rw later (inr (h.0, take_present i label (drop (suc (suc i)) label) h.0, h.1))

pub parse_mod-IsSplit : (href label : Text) → IsSplit label (parse_mod href label)
unfolding parse_mod
parse_mod-IsSplit href label = mod_at-IsSplit href label _ (last_index-IsLast label b'@')

last_index-none : (s : Text) (sep : ℕ) → Lacks sep s → last_index s sep ≡ none
unfolding last_index
last_index-none [] sep h = refl
last_index-none (c ∷ s) sep h = rw (last_index-none s sep h.1) (rw (h.0) refl)

last_index-append :
    (s t : Text) (sep : ℕ) → Lacks sep t → last_index (s ++ sep ∷ t) sep ≡ some (length s)
unfolding last_index
last_index-append [] t sep h =
    let found : (sep == sep) ≡ true = ground arith in rw (last_index-none t sep h) (rw found refl)
last_index-append (c ∷ s) t sep h = rw (last_index-append s t sep h) refl

take-length : (s t : Text) → take (length s) (s ++ t) ≡ s
take-length [] t = refl
take-length (c ∷ s) t = ap (◌∷◌ c) (take-length s t)

drop-length : (s t : Text) (sep : ℕ) → drop (suc (length s)) (s ++ sep ∷ t) ≡ t
drop-length [] t sep = refl
drop-length (c ∷ s) t sep = drop-length s t sep

-- A link with the text `name@version` is read back as that name and that version, whatever the name
-- holds, if the name is not empty and the version has no @.
pub parse_mod_parts :
    (href name version : Text)
    → is_empty name ≡ false
    → Lacks b'@' version
    → parse_mod href (name ++ b'@' ∷ version)
      ≡ record { name = name; version = version; url = href }
unfolding parse_mod
parse_mod_parts href [] version h k = absurd (ground (arith, h))
parse_mod_parts href (c ∷ name) version h k =
    let later : ltb 0 (suc (length name)) ≡ true = ground arith in
    rw (last_index-append (c ∷ name) version b'@' k)
      (rw later (rw (take-length name (b'@' ∷ version)) (rw (drop-length name version b'@') refl)))
