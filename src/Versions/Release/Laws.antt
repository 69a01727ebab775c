-- ===== src/Versions/Release/Laws.antt =====
-- versions/versions.go parseRelease: what a release that it returns promises.
use mathlib.Core.List
use vintagestory_go.Base.{
  ℕ, ◌≡◌, ◌≢◌, ◌⊎◌, inl, inr, refl, sym, ◌∙◌, true, false, Option, some, [], ◌∷◌, Text, text,
  is_empty, eq_text_iff, All, reverse, Option-cases, arith,
}
use vintagestory_go.Base.Int.{ℤ}
use vintagestory_go.Base.Strings.{trim_space, contains, to_lower}
use vintagestory_go.Base.Urls.{hostname}
use vintagestory_go.Versions.Release.{
  Release, CatalogFile, Location, base_name, until_slash, skip_slashes, or_slash, is_checksum,
  release_at, parse_release,
}

abbrev pub NoSlash : Text → Type 0
NoSlash s = All (λ c. c ≢ b'/') s

until_slash-NoSlash : (s : Text) → NoSlash (until_slash s)
unfolding until_slash
until_slash-NoSlash [] = tt
until_slash-NoSlash (c ∷ s) = ground (arith, until_slash-NoSlash s)

reverse_aux-NoSlash : (s t : Text) → NoSlash s → NoSlash t → NoSlash (List.reverse_aux s t)
reverse_aux-NoSlash [] t h k = k
reverse_aux-NoSlash (c ∷ s) t h k = reverse_aux-NoSlash s (c ∷ t) h.1 (h.0, k)

or_slash-NoSlash : (s : Text) → NoSlash s → (or_slash s ≡ text "/") ⊎ NoSlash (or_slash s)
unfolding or_slash
or_slash-NoSlash [] h = inl refl
or_slash-NoSlash (c ∷ s) h = inr h

-- path.Base gives one name without a slash, but for the root.
base_name-NoSlash : (s : Text) → (base_name s ≡ text "/") ⊎ NoSlash (base_name s)
unfolding base_name
base_name-NoSlash [] = inr ((λ e. ground arith), tt)
base_name-NoSlash (c ∷ s) =
    let rest = until_slash (skip_slashes (reverse (c ∷ s))) in
    or_slash-NoSlash (reverse rest)
      (reverse_aux-NoSlash rest [] (until_slash-NoSlash (skip_slashes (reverse (c ∷ s)))) tt)

-- What parseRelease checks before it returns a release.
pub record IsTrusted (parse_url : Text → Option Location) (raw : Text) (file : CatalogFile)
    (r : Release) : Type 0 where
  pub location : Location
  pub parsed : parse_url file.cdn ≡ some location
  pub secure : location.scheme ≡ text "https"
  pub official : hostname location.host ≡ text "cdn.vintagestory.at"
  pub printed : r.download_url ≡ location.printed
  pub identity : (r.id ≡ trim_space raw) × (is_empty r.id ≡ false)
  pub same_name : (r.filename ≡ file.filename) × (base_name location.path ≡ r.filename)
  pub one_name : (r.filename ≡ text "/") ⊎ NoSlash r.filename
  pub no_backslash : contains r.filename (text "\\") ≡ false
  pub checksum : (r.checksum ≡ to_lower (trim_space file.md5)) × (is_checksum r.checksum ≡ true)

module _ (scaled : Text → ℕ → Option ℤ) (parse_url : Text → Option Location) where
  record At (id : Text) (file : CatalogFile) (u : Location) (r : Release) : Type 0 where
    pub secure : u.scheme ≡ text "https"
    pub official : hostname u.host ≡ text "cdn.vintagestory.at"
    pub printed : r.download_url ≡ u.printed
    pub identity : r.id ≡ id
    pub filename : r.filename ≡ file.filename
    pub base : base_name u.path ≡ file.filename
    pub checksum : r.checksum ≡ to_lower (trim_space file.md5)
    pub digits : is_checksum r.checksum ≡ true

  release_at-some :
      (id : Text) (file : CatalogFile) (platform architecture : Text) (u : Location) (r : Release)
      → release_at scaled parse_url id file platform architecture u ≡ some r
      → At id file u r
  unfolding release_at
  release_at-some id file platform architecture u r h = record {
    secure = (eq_text_iff u.scheme (text "https")).0 (ground (arith, h));
    official = (eq_text_iff (hostname u.host) (text "cdn.vintagestory.at")).0 (ground (arith, h));
    printed = ground (arith, h);
    identity = ground (arith, h);
    filename = ground (arith, h);
    base = (eq_text_iff (base_name u.path) file.filename).0 (ground (arith, h));
    checksum = ground (arith, h);
    digits = ground (arith, h);
  }

  -- A release of parseRelease has an https URL at the official host, whose path ends in the name of
  -- the file; this has no backslash, and no slash unless it is the root; its id is not empty and its
  -- checksum is 32 lowercase hex digits.
  pub parse_release-IsTrusted :
      (raw : Text) (file : CatalogFile) (platform architecture : Text) (r : Release)
      → parse_release scaled parse_url raw file platform architecture ≡ some r
      → IsTrusted parse_url raw file r
  unfolding parse_release
  parse_release-IsTrusted raw file platform architecture r h =
      elim (Option-cases (parse_url file.cdn)) [
        | inl e ↦ absurd (ground (arith, h, e))
        | inr (u, e) ↦
            let reached : release_at scaled parse_url (trim_space raw) file platform architecture u
                ≡ some r =
              ground (arith, h, e) in
            let named : is_empty (trim_space raw) ≡ false = ground (arith, h) in
            let based : base_name file.filename ≡ file.filename =
              (eq_text_iff (base_name file.filename) file.filename).0 (ground (arith, h)) in
            let plain : contains file.filename (text "\\") ≡ false = ground (arith, h) in
            let at = release_at-some (trim_space raw) file platform architecture u r reached in
            record {
              location = u;
              parsed = e;
              secure = at.secure;
              official = at.official;
              printed = at.printed;
              identity = (at.identity, rw at.identity named);
              same_name = (at.filename, at.base ∙ sym at.filename);
              one_name = rw (at.filename, ← based) (base_name-NoSlash file.filename);
              no_backslash = rw at.filename plain;
              checksum = (at.checksum, at.digits);
            }
      ]
