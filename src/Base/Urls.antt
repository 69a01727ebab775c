-- ===== src/Base/Urls.antt =====
-- The host name of a URL, as net/url cuts it out of the host.
use mathlib.Core.Bool.{◌&&◌}
use mathlib.Core.List.{[], ◌∷◌, reverse}
use vintagestory_go.Base.Tests.{◌==◌, if◌then◌else◌}
use vintagestory_go.Base.Lists.{drop}
use vintagestory_go.Base.Strings.{Text, text, has_prefix, has_suffix, is_digit}

-- u.Hostname(): the host without a port and without the brackets of an IPv6 address.
skip_digits : Text → Text
unfolding is_digit
skip_digits [] = []
skip_digits (c ∷ s) = let rest = skip_digits s in if is_digit c then rest else c ∷ s

before_port : Text → Text → Text
before_port whole [] = whole
before_port whole (c ∷ s) = if c == b':' then reverse s else whole

unbracket : Text → Text
unfolding has_prefix has_suffix
unbracket h =
    if has_prefix h (text "[") && has_suffix h (text "]")
    then reverse (drop 1 (reverse (drop 1 h)))
    else h

unfoldable pub hostname : Text → Text
unfolding skip_digits before_port unbracket
hostname host = unbracket (before_port host (skip_digits (reverse host)))
