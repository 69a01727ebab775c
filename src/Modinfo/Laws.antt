-- ===== src/Modinfo/Laws.antt =====
-- modinfo/modinfo.go ReadArchive: which entry is read, and how much of it.
use vintagestory_go.Base.{
  ℕ, suc, ◌≤◌, ltb, ◌≡◌, refl, sym, ap, subst, ◌∙◌, Bool, Option, none, some, List, [], ◌∷◌, take,
  length, Text, if◌then◌else◌, Bool-cases, Option-cases, inl, inr, arith,
}
use vintagestory_go.Modinfo.{
  Info, Content, content, Entry, archive, parsed, Readers, max_bytes, is_root, is_nested,
  keep_nested, find_entry, parse, parsed_or_invalid, within, read_content, read_entry_of,
  read_archive,
}

-- The first entry that passes a test.
pub first : (Entry → Bool) → List Entry → Option Entry
first p [] = none
first p (f ∷ fs) = if p f then some f else first p fs

abbrev pub or_else : Option Entry → Option Entry → Option Entry
or_else none o = o
or_else (some f) o = some f

-- What the loop means: the first modinfo.json at the root, else the first one in a directory.
abbrev pub wanted : List Entry → Option Entry
wanted files = or_else (first (λ f. is_root f) files) (first (λ f. is_nested f) files)

find_entry-first :
    (best : Option Entry) (fs : List Entry)
    → find_entry best fs
      ≡ or_else (first (λ f. is_root f) fs) (or_else best (first (λ f. is_nested f) fs))
unfolding find_entry first keep_nested
find_entry-first none [] = refl
find_entry-first (some b) [] = refl
find_entry-first none (f ∷ fs) = elim (Bool-cases (is_root f)) [
  | inl e ↦ rw e refl
  | inr e ↦ elim (Bool-cases (is_nested f)) [
    | inl k ↦ rw (e, k) (find_entry-first (some f) fs)
    | inr k ↦ rw (e, k) (find_entry-first none fs)
  ]
]
find_entry-first (some b) (f ∷ fs) = elim (Bool-cases (is_root f)) [
  | inl e ↦ rw e refl
  | inr e ↦ rw e (find_entry-first (some b) fs)
]

module _ (io : Readers) where
  -- Where an info comes from.
  pub record IsRead (files : List Entry) (info : Info) : Type 0 where
    pub entry : Entry
    pub bytes : Text
    pub chosen : wanted files ≡ some entry
    pub declared : entry.declared_size ≤ max_bytes
    pub opened : entry.content ≡ content bytes
    pub fits : length bytes ≤ max_bytes
    pub value : parse io bytes ≡ some info

  take_whole : (n : ℕ) (s : Text) → length (take (suc n) s) ≤ n → take (suc n) s ≡ s
  take_whole n [] h = refl
  take_whole ℕ.zero (c ∷ s) h = absurd (ground (arith, h))
  take_whole (suc n) (c ∷ s) h = ap (◌∷◌ c) (take_whole n s (omega (arith, h)))

  parsed_or_invalid-parsed :
      (o : Option Info) (info : Info) → parsed_or_invalid io o ≡ parsed info → o ≡ some info
  unfolding parsed_or_invalid
  parsed_or_invalid-parsed none info h = absurd (ground (arith, h))
  parsed_or_invalid-parsed (some i) info h = ground (arith, h)

  within-parsed :
      (max : ℕ) (s : Text) (info : Info)
      → within io max s ≡ parsed info
      → (length s ≤ max) × (parse io s ≡ some info)
  unfolding within
  within-parsed max s info h = elim (Bool-cases (ltb max (length s))) [
    | inl e ↦ absurd (ground (arith, h, e))
    | inr e ↦ (ground (arith, e), parsed_or_invalid-parsed (parse io s) info (ground (arith, h, e)))
  ]

  read_content-parsed :
      (c : Content) (info : Info)
      → read_content io c ≡ parsed info
      → (bytes : Text) × (c ≡ content bytes)
        × (length bytes ≤ max_bytes)
        × (parse io bytes ≡ some info)
  unfolding read_content
  read_content-parsed Content.not_opened info h = absurd (ground (arith, h))
  read_content-parsed Content.not_read info h = absurd (ground (arith, h))
  read_content-parsed (content c) info h =
      let (small, value) = within-parsed max_bytes (take (suc max_bytes) c) info h in
      let whole = take_whole max_bytes c small in
      (
        c,
        refl,
        subst (λ l. length l ≤ max_bytes) whole small,
        subst (λ l. parse io l ≡ some info) whole value,
      )

  -- An info that ReadArchive returns is parsed from the whole of one entry of the archive within the
  -- limit: the first modinfo.json at the root in any case of letters, else the first one in a directory.
  pub read_archive-IsRead :
      (files : List Entry) (info : Info)
      → read_archive io (archive files) ≡ parsed info
      → IsRead files info
  unfolding read_archive read_entry_of
  read_archive-IsRead files info h = elim (Option-cases (find_entry none files)) [
    | inl e ↦ absurd (ground (arith, rw (read_archive, e) at h))
    | inr (f, e) ↦
        let h' = rw (read_archive, e) at h in
        let small : f.declared_size ≤ max_bytes = ground (arith, h') in
        let (bytes, opened, fits, value) =
          read_content-parsed f.content info (ground (arith, h', small)) in
        record {
          entry = f;
          bytes = bytes;
          chosen = sym (find_entry-first none files) ∙ e;
          declared = small;
          opened = opened;
          fits = fits;
          value = value;
        }
  ]
