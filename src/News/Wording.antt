-- ===== src/News/Wording.antt =====
-- news/parser.go truncate and category. A rune is a byte with the continuation bytes that follow it,
-- which is what Go decodes from valid UTF-8.
use vintagestory_go.Base.{
  ℕ, zero, suc, leb, ◌==◌, Bool, false, ◌&&◌, [], ◌∷◌, ◌++◌, Text, text, if◌then◌else◌,
}
use vintagestory_go.Base.Strings.{trim_space, to_lower, trim_prefix, contains, is_digit}
use vintagestory_go.News.Types.{Category}

is_continuation : ℕ → Bool
is_continuation c = leb 128 c && leb c 191

rune_count : Text → ℕ
unfolding is_continuation
rune_count [] = 0
rune_count (c ∷ s) = let rest = rune_count s in if is_continuation c then rest else suc rest

take_runes : ℕ → Text → Text
unfolding is_continuation
take_runes n [] = []
take_runes n (c ∷ s) =
    if is_continuation c
    then c ∷ take_runes n s
    else elim n [ zero ↦ [] | suc k ↦ c ∷ take_runes k s ]

-- An ellipsis is the rune U+2026.
unfoldable pub truncate : Text → ℕ → Text
unfolding rune_count take_runes
truncate value maximum =
    if leb (rune_count value) maximum
    then value
    else trim_space (take_runes maximum value) ++ 226 ∷ 128 ∷ 166 ∷ []

abbrev pub maximum_summary_runes : ℕ
maximum_summary_runes = 320

-- strings.Cut(s, " ")
before_space : Text → Text
before_space [] = []
before_space (c ∷ s) = let rest = before_space s in if c == b' ' then [] else c ∷ rest

begins_with_digit : Text → Bool
unfolding is_digit
begins_with_digit [] = false
begins_with_digit (c ∷ s) = is_digit c

unfoldable pub category_of : Text → Category
unfolding before_space begins_with_digit
category_of title =
    let lower = to_lower (trim_space title) in
    let first = before_space (trim_prefix lower (text "v")) in
    if contains lower (text "development update")
    then Category.development
    else if begins_with_digit first && contains first (text ".")
    then Category.release
    else Category.news
