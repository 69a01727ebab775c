-- ===== src/Moddb/GameVersion.antt =====
-- moddb/client.go: gameVersionParam with its two regular expressions.
use vintagestory_go.Base.{
  ◌==◌, Bool, true, false, ◌&&◌, Option, none, some, List, [], ◌∷◌, ◌++◌, Text, text, is_empty,
  if◌then◌else◌, all,
}
use vintagestory_go.Base.Strings.{trim_space, trim_suffix, split, is_digit, has_prefix}

-- \d+
is_number : Text → Bool
unfolding is_digit
is_number s = if is_empty s then false else all is_digit s

numbers_2 : List Text → Bool
unfolding is_number
numbers_2 (a ∷ b ∷ []) = is_number a && is_number b
numbers_2 _ = false

-- ^\d+\.\d+$ matches the texts with two parts between dots that are numbers
unfoldable pub is_major_minor : Text → Bool
unfolding numbers_2
is_major_minor s = numbers_2 (split s b'.')

-- What follows the first "-", if there is one.
cut_dash : Text → Text → Text × Option Text
cut_dash head [] = (head, none)
cut_dash head (c ∷ s) =
    let rest = cut_dash (head ++ c ∷ []) s in if c == b'-' then (head, some s) else rest

numbers_3 : List Text → Bool
unfolding is_number
numbers_3 (a ∷ b ∷ c ∷ []) = is_number a && is_number b && is_number c
numbers_3 _ = false

drop_label : Text → Option Text
drop_label s =
    if has_prefix s (text "dev.")
    then some (trim_label s)
    else if has_prefix s (text "pre.")
    then some (trim_label s)
    else if has_prefix s (text "rc.")
    then some (trim_short s)
    else none
  where
    trim_short : Text → Text
    trim_short (a ∷ b ∷ c ∷ r) = r
    trim_short _ = []

    trim_label : Text → Text
    trim_label (a ∷ b ∷ c ∷ d ∷ r) = r
    trim_label _ = []

is_label : Option Text → Bool
unfolding drop_label is_number
is_label none = true
is_label (some s) = elim (drop_label s) [ none ↦ false | some n ↦ is_number n ]

-- ^\d+\.\d+\.\d+(?:-(?:dev|pre|rc)\.\d+)?$ : the part before the first dash is three numbers, since no
-- number holds a dash, and the part after it is a label with a number.
unfoldable pub is_exact : Text → Bool
unfolding numbers_3 cut_dash is_label
is_exact s =
    let (numbers, label) = cut_dash [] s in numbers_3 (split numbers b'.') && is_label label

-- func gameVersionParam: the name and the value of the query parameter.
unfoldable pub game_version_param : Text → Option (Text × Text)
game_version_param raw =
    let v = trim_space raw in
    let series = trim_suffix v (text ".x") in
    if is_major_minor series
    then some (text "gameversion", series)
    else if is_exact v
    then some (text "gv", v)
    else none
