-- ===== src/Servers/Patterns.antt =====
-- servers/parser.go: playersPattern, playerLimitPattern and modsPattern, as recognisers that return
-- the groups. A run of digits or of white space ends at the first other byte, so the greedy match is
-- the only one.
pub mod Numbers
use vintagestory_go.Base.{
  ℕ, ◌||◌, ◌&&◌, Bool, not, Option, none, some, [], ◌∷◌, ◌==◌, Text, text, is_empty, eq_text,
  if◌then◌else◌,
}
use vintagestory_go.Base.Strings.{is_digit}

-- \s of package regexp
abbrev pub is_pattern_space : ℕ → Bool
is_pattern_space c = c == 32 || c == 9 || c == 10 || c == 12 || c == 13

-- The longest prefix whose bytes pass, and the rest.
unfoldable pub span : (ℕ → Bool) → Text → Text × Text
span p [] = ([], [])
span p (c ∷ s) = let (run, rest) = span p s in if p c then (c ∷ run, rest) else ([], c ∷ s)

-- ^(\d+)\s+(one of two words)$
unfoldable pub counted : Text → Text → Text → Option Text
unfolding span is_digit
counted one many s =
    let (number, rest) = span is_digit s in
    let (gap, word) = span is_pattern_space rest in
    if not (is_empty number) && not (is_empty gap) && (eq_text word one || eq_text word many)
    then some number
    else none

-- playersPattern.FindStringSubmatch
unfoldable pub players_pattern : Text → Option Text
unfolding counted
players_pattern s = counted (text "player") (text "players") s

-- modsPattern.FindStringSubmatch, where the words are followed by white space and `installed`
after_word : Text → Text → Option Text
after_word [] s = some s
after_word (a ∷ w) [] = none
after_word (a ∷ w) (b ∷ s) = let rest = after_word w s in if a == b then rest else none

skip_letter : ℕ → Text → Text
skip_letter a [] = []
skip_letter a (b ∷ s) = if a == b then s else b ∷ s

installed : Text → Option Text → Option Text
unfolding span skip_letter
installed number none = none
installed number (some rest) =
    let (gap, word) = span is_pattern_space (skip_letter b's' rest) in
    if not (is_empty gap) && eq_text word (text "installed") then some number else none

unfoldable pub mods_pattern : Text → Option Text
unfolding span is_digit after_word installed
mods_pattern s =
    let (number, rest) = span is_digit s in
    let (gap, more) = span is_pattern_space rest in
    if not (is_empty number) && not (is_empty gap)
    then installed number (after_word (text "mod") more)
    else none

-- The second number of playerLimitPattern, after the first one and white space.
limit_of : Text → Text → Option (Text × Text)
unfolding span is_digit
limit_of number [] = none
limit_of number (c ∷ s) =
    let (limit, rest) = span is_digit (span is_pattern_space s).1 in
    if c == b'/' && not (is_empty limit) && is_empty rest then some (number, limit) else none

-- playerLimitPattern.FindStringSubmatch
unfoldable pub player_limit_pattern : Text → Option (Text × Text)
unfolding span is_digit limit_of
player_limit_pattern s =
    let (number, rest) = span is_digit s in
    let found = limit_of number (span is_pattern_space rest).1 in
    if is_empty number then none else found
