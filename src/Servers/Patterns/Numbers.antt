-- ===== src/Servers/Patterns/Numbers.antt =====
-- servers/parser.go: the numbers that the patterns find, read by strconv.Atoi.
use vintagestory_go.Base.{
  ◌≡◌, ◌==◌, false, not, ◌&&◌, ◌||◌, Option, none, some, [], ◌∷◌, Text, text, is_empty, eq_text,
  Bool-cases, inl, inr, arith,
}
use vintagestory_go.Base.Strings.{is_digit, atoi}
use vintagestory_go.Base.Strings.Numerals.{InRange, atoi-InRange}
use vintagestory_go.Servers.Patterns.{
  is_pattern_space, span, counted, players_pattern, after_word, installed, mods_pattern, limit_of,
  player_limit_pattern,
}

-- The number that a group stands for.
abbrev pub IsNumber : Text → Type 0
IsNumber s = InRange (atoi s).0

span-IsNumber : (s : Text) → is_empty (span is_digit s).0 ≡ false → IsNumber (span is_digit s).0
unfolding span
span-IsNumber [] h = absurd (ground (arith, h))
span-IsNumber (c ∷ s) h = elim (Bool-cases (is_digit c)) [
  | inl e ↦ rw e (atoi-InRange c (span is_digit s).0 e)
  | inr e ↦ absurd (ground (arith, rw e at h))
]

counted-IsNumber : (one many s d : Text) → counted one many s ≡ some d → IsNumber d
unfolding counted
counted-IsNumber one many s d h =
    let run = (span is_digit s).0 in
    let gap = span is_pattern_space (span is_digit s).1 in
    let test =
      not (is_empty run) && not (is_empty gap.0) && (eq_text gap.1 one || eq_text gap.1 many) in
    elim (Bool-cases test) [
      | inl e ↦
          let same : run ≡ d = ground (arith, h, e) in
          rw (← same) (span-IsNumber s (ground (arith, e)))
      | inr e ↦ absurd (ground (arith, h, e))
    ]

pub players_pattern-IsNumber : (s d : Text) → players_pattern s ≡ some d → IsNumber d
unfolding players_pattern
players_pattern-IsNumber s d h = counted-IsNumber _ _ s d h

installed-eq :
    (number : Text) (o : Option Text) (d : Text) → installed number o ≡ some d → number ≡ d
unfolding installed
installed-eq number none d h = cc
installed-eq number (some rest) d h = ground (arith, h)

pub mods_pattern-IsNumber : (s d : Text) → mods_pattern s ≡ some d → IsNumber d
unfolding mods_pattern
mods_pattern-IsNumber s d h =
    let run = (span is_digit s).0 in
    let gap = span is_pattern_space (span is_digit s).1 in
    elim (Bool-cases (not (is_empty run) && not (is_empty gap.0))) [
      | inl e ↦
          let same = installed-eq run (after_word (text "mod") gap.1) d (rw e at h) in
          rw (← same) (span-IsNumber s (ground (arith, e)))
      | inr e ↦ absurd (ground (arith, h, e))
    ]

limit_of-IsNumber :
    (number s d m : Text) → limit_of number s ≡ some (d, m) → (number ≡ d) × IsNumber m
unfolding limit_of
limit_of-IsNumber number [] d m h = cc
limit_of-IsNumber number (c ∷ s) d m h =
    let after = (span is_pattern_space s).1 in
    let found = span is_digit after in
    elim (Bool-cases (c == b'/' && not (is_empty found.0) && is_empty found.1)) [
      | inl e ↦
          let same : found.0 ≡ m = ground (arith, h, e) in
          (ground (arith, h, e), rw (← same) (span-IsNumber after (ground (arith, e))))
      | inr e ↦ absurd (ground (arith, h, e))
    ]

pub player_limit_pattern-IsNumber :
    (s d m : Text) → player_limit_pattern s ≡ some (d, m) → IsNumber d × IsNumber m
unfolding player_limit_pattern
player_limit_pattern-IsNumber s d m h =
    let run = (span is_digit s).0 in
    let rest = (span is_pattern_space (span is_digit s).1).1 in
    elim (Bool-cases (is_empty run)) [
      | inl e ↦ absurd (ground (arith, h, e))
      | inr e ↦
          let (same, limit) = limit_of-IsNumber run rest d m (rw e at h) in
          (rw (← same) (span-IsNumber s e), limit)
    ]
