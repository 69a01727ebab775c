-- ===== src/Versions/Release.antt =====
-- versions/versions.go: Release, distributionFor, parseRelease and parseFileSize. url.Parse and
-- strconv.ParseFloat are parameters.
pub mod Laws
use vintagestory_go.Base.{
  ℕ, Bool, false, ◌&&◌, ◌||◌, not, Option, none, some, List, [], ◌∷◌, Text, text, is_empty, eq_text,
  leb, ◌==◌, ◌-◌, length, all, any, reverse, if◌then◌else◌,
}
use vintagestory_go.Base.Int.{ℤ, pos, negsuc}
use vintagestory_go.Base.Urls.{hostname}
use vintagestory_go.Base.Strings.{trim_space, contains, to_lower, fields}

pub record Release : Type 0 where
  pub id : Text
  pub name : Text
  pub channel : Text
  pub platform : Text
  pub architecture : Text
  pub filename : Text
  pub download_url : Text
  pub checksum : Text
  pub checksum_algorithm : Text
  pub download_size : ℤ
  pub latest : Bool

pub record CatalogFile : Type 0 where
  pub filename : Text
  pub file_size : Text
  pub md5 : Text
  pub cdn : Text
  pub latest : ℤ

-- What url.Parse finds, as far as the package looks: u.Scheme, u.Host, u.Path and u.String().
pub record Location : Type 0 where
  pub scheme : Text
  pub host : Text
  pub path : Text
  pub printed : Text

-- func distributionFor: the key of the payload and the architecture.
unfoldable pub distribution_for : Text → Text → Option (Text × Text)
distribution_for platform architecture =
    if eq_text platform (text "linux") && eq_text architecture (text "amd64")
    then some (text "linux", text "amd64")
    else if eq_text platform (text "windows") && eq_text architecture (text "amd64")
    then some (text "windows", text "amd64")
    else none

-- path.Base: without trailing slashes, what follows the last slash.
skip_slashes : Text → Text
skip_slashes [] = []
skip_slashes (c ∷ s) = let rest = skip_slashes s in if c == b'/' then rest else c ∷ s

until_slash : Text → Text
until_slash [] = []
until_slash (c ∷ s) = let rest = until_slash s in if c == b'/' then [] else c ∷ rest

or_slash : Text → Text
or_slash [] = text "/"
or_slash (c ∷ s) = c ∷ s

unfoldable pub base_name : Text → Text
unfolding skip_slashes until_slash or_slash
base_name [] = text "."
base_name (c ∷ s) = or_slash (reverse (until_slash (skip_slashes (reverse (c ∷ s)))))

to_upper_byte : ℕ → ℕ
to_upper_byte c = if leb b'a' c && leb c b'z' then c - 32 else c

to_upper : Text → Text
unfolding to_upper_byte
to_upper [] = []
to_upper (c ∷ s) = to_upper_byte c ∷ to_upper s

-- The map of the units; a missing key reads as 0.
multiplier : Text → ℕ
multiplier unit =
    if eq_text unit (text "B")
    then 1
    else if eq_text unit (text "KB")
    then 1_000
    else if eq_text unit (text "MB")
    then 1_000_000
    else if eq_text unit (text "GB")
    then 1_000_000_000
    else 0

is_hex : ℕ → Bool
is_hex c = any (λ d. d == c) (text "0123456789abcdef")

-- The checksum loop returns an error at the first rune that is not a lowercase hex digit.
unfoldable pub is_checksum : Text → Bool
unfolding is_hex
is_checksum s = length s == 32 && all is_hex s

unfoldable pub channel_of : Text → Text
unfolding contains
channel_of p =
    if contains p (text "/stable/")
    then text "stable"
    else if contains p (text "/unstable/")
    then text "unstable"
    else text "unknown"

-- strconv.ParseFloat of a text times a multiplier, cut to an int64: `none` for an error or a
-- negative number.
module _ (scaled : Text → ℕ → Option ℤ) where
  size_or_zero : Option ℤ → ℤ
  size_or_zero none = pos 0
  size_or_zero (some n) = n

  size_of_fields : List Text → ℤ
  unfolding size_or_zero multiplier to_upper
  size_of_fields (n ∷ unit ∷ []) = size_or_zero (scaled n (multiplier (to_upper unit)))
  size_of_fields _ = pos 0

  -- func parseFileSize
  unfoldable pub parse_file_size : Text → ℤ
  unfolding size_of_fields
  parse_file_size value = size_of_fields (fields (trim_space value))

  module _ (parse_url : Text → Option Location) where
    release_at : Text → CatalogFile → Text → Text → Location → Option Release
    unfolding is_checksum
    release_at id file platform architecture u =
        let checksum = to_lower (trim_space file.md5) in
        if not (eq_text u.scheme (text "https"))
          || not (eq_text (hostname u.host) (text "cdn.vintagestory.at"))
        then none
        else if not (eq_text (base_name u.path) file.filename)
        then none
        else if not (is_checksum checksum)
        then none
        else some (record {
          id = id;
          name = id;
          channel = channel_of u.path;
          platform = platform;
          architecture = architecture;
          filename = file.filename;
          download_url = u.printed;
          checksum = checksum;
          checksum_algorithm = text "md5";
          download_size = parse_file_size file.file_size;
          latest = is_one file.latest;
        })
      where
        is_one : ℤ → Bool
        is_one (pos n) = n == 1
        is_one (negsuc n) = false

    -- func parseRelease; `none` is one of its errors, which its caller does not look at.
    unfoldable pub parse_release : Text → CatalogFile → Text → Text → Option Release
    unfolding release_at
    parse_release raw file platform architecture =
        let id = trim_space raw in
        if is_empty id || is_empty (trim_space file.filename)
        then none
        else if not (eq_text (base_name file.filename) file.filename)
            || contains file.filename (text "\\")
        then none
        else elim (parse_url file.cdn) [
          | none ↦ none
          | some u ↦ release_at id file platform architecture u
        ]
