-- ===== src/Servers/Location/Pages.antt =====
-- servers/client.go detailURL: the address of a server's page.
use vintagestory_go.Base.{
  ℕ, ◌/◌, ◌%◌, ◌==◌, ◌≡◌, ◌≢◌, ◌⊎◌, inl, inr, refl, ap, ◌∙◌, Bool, true, false, List, [], ◌∷◌, ◌++◌,
  All, Text, text, is_empty, eq_text, eq_text_iff, Bool-cases, arith,
}
use vintagestory_go.Base.Strings.{split, join}
use vintagestory_go.Base.Strings.Splits.{Lacks, split_whole, split-append}
use vintagestory_go.Vshttp.Request.{Url, url_text}
use vintagestory_go.Vshttp.Json.{Result, ok}
use vintagestory_go.Servers.Location.{
  is_segment_byte, is_path_byte, upper_hex, escape, path_escape, clean_parts, clean, present,
  join_path, with_root, url_string, page_of, detail_url,
}

-- An id that is an element of a path of its own.
pub record IsElement (id : Text) : Type 0 where
  pub given : id ≢ text ""
  pub not_here : id ≢ text "."
  pub not_up : id ≢ text ".."

upper_hex-Lacks : (n : ℕ) → (upper_hex (n / 16) == b'/') ≡ false
upper_hex-Lacks n = ground arith

upper_hex_low : (n : ℕ) → (upper_hex (n % 16) == b'/') ≡ false
upper_hex_low n = ground arith

no_slash : (c : ℕ) → is_segment_byte c ≡ true → (c == b'/') ≡ false
unfolding is_segment_byte
no_slash c h = ground (arith, h)

path_escape-Lacks : (s : Text) → Lacks b'/' (path_escape s)
unfolding path_escape escape
path_escape-Lacks [] = tt
path_escape-Lacks (c ∷ s) = elim (Bool-cases (is_segment_byte c)) [
  | inl e ↦ rw e (no_slash c e, path_escape-Lacks s)
  | inr e ↦ rw e (ground arith, (upper_hex-Lacks c, (upper_hex_low c, path_escape-Lacks s)))
]

escape_empty : (s : Text) → path_escape s ≡ [] → s ≡ []
unfolding path_escape escape
escape_empty [] h = refl
escape_empty (c ∷ s) h = absurd (ground (arith, h))

-- Escaping gives a text that starts with a dot only from one that does.
escape_dot :
    (c : ℕ) (s t : Text) → path_escape (c ∷ s) ≡ b'.' ∷ t → (c ≡ b'.') × (path_escape s ≡ t)
unfolding path_escape escape
escape_dot c s t h = elim (Bool-cases (is_segment_byte c)) [
  | inl e ↦ (ground (arith, h, e), ground (arith, h, e))
  | inr e ↦ absurd (ground (arith, h, e))
]

escape_here : (s : Text) → path_escape s ≡ text "." → s ≡ text "."
escape_here [] h = absurd (unfold path_escape escape in ground (arith, h))
escape_here (c ∷ s) h = let (dot, rest) = escape_dot c s [] h in rw (dot, escape_empty s rest) refl

escape_up : (s : Text) → path_escape s ≡ text ".." → s ≡ text ".."
escape_up [] h = absurd (unfold path_escape escape in ground (arith, h))
escape_up (c ∷ s) h =
    let (dot, rest) = escape_dot c s (text ".") h in rw (dot, escape_here s rest) refl

not_eq_text : (s t : Text) → s ≢ t → eq_text s t ≡ false
not_eq_text s t n = elim (Bool-cases (eq_text s t)) [
  | inl e ↦ absurd (n ((eq_text_iff s t).0 e))
  | inr e ↦ e
]

not_is_empty : (s : Text) → s ≢ [] → is_empty s ≡ false
not_is_empty [] n = absurd (n refl)
not_is_empty (c ∷ s) n = refl

-- The elements `s` and the id, below the root of the site.
clean_parts_page :
    (rooted : Bool) (e : Text)
    → e ≢ text ""
    → e ≢ text "."
    → e ≢ text ".."
    → clean_parts rooted [] (text "s" ∷ e ∷ []) ≡ e ∷ text "s" ∷ []
unfolding clean_parts eq_text
clean_parts_page rooted e n h u =
    rw (not_is_empty e n) (rw (not_eq_text e (text ".") h) (rw (not_eq_text e (text "..") u) refl))

split_page : (e : Text) → Lacks b'/' e → split (text "s/" ++ e) b'/' ≡ text "s" ∷ e ∷ []
split_page e h =
    split-append b'/' (text "s") e (refl, tt) ∙ ap (◌∷◌ (text "s")) (split_whole b'/' e h)

split_root : (s : Text) → split (b'/' ∷ s) b'/' ≡ [] ∷ split s b'/'
split_root s = split-append b'/' [] s tt

clean_below :
    (e : Text)
    → Lacks b'/' e
    → e ≢ text ""
    → e ≢ text "."
    → e ≢ text ".."
    → clean (text "s/" ++ e) ≡ text "s/" ++ e
unfolding clean
clean_below e l n h u =
    rw (split_page e l) (rw (clean_parts_page false e n h u) (unfold join in refl))

clean_parts_skip :
    (rooted : Bool) (ps : List Text) → clean_parts rooted [] ([] ∷ ps) ≡ clean_parts rooted [] ps
unfolding clean_parts
clean_parts_skip rooted ps = refl

clean_root :
    (e : Text)
    → Lacks b'/' e
    → e ≢ text ""
    → e ≢ text "."
    → e ≢ text ".."
    → clean (text "//s/" ++ e) ≡ text "/s/" ++ e
unfolding clean
clean_root e l n h u = rw (split_root (text "/s/" ++ e)) (
    rw (split_root (text "s/" ++ e)) (
      rw (split_page e l) (
        rw (clean_parts_skip true ([] ∷ text "s" ∷ e ∷ [])) (
          rw (clean_parts_skip true (text "s" ∷ e ∷ []))
            (rw (clean_parts_page true e n h u) (unfold join in refl))))))

escape-append : (p : ℕ → Bool) (s t : Text) → escape p (s ++ t) ≡ escape p s ++ escape p t
unfolding escape
escape-append p [] t = refl
escape-append p (c ∷ s) t = elim (Bool-cases (p c)) [
  | inl e ↦ rw e (ap (◌∷◌ c) (escape-append p s t))
  | inr e ↦
      rw e (
        ap (λ (r : Text). b'%' ∷ upper_hex (c / 16) ∷ upper_hex (c % 16) ∷ r) (escape-append p s t))
]

-- The site has its pages at the root.
abbrev pub IsRoot : Text → Type 0
IsRoot base = (base ≡ text "/") ⊎ (base ≡ text "")

join_page : (e : Text) → is_empty e ≡ false → present (text "s" ∷ e ∷ []) ≡ text "s" ∷ e ∷ []
join_page e n = rw n refl

page_path :
    (base e : Text)
    → IsRoot base
    → Lacks b'/' e
    → e ≢ text ""
    → e ≢ text "."
    → e ≢ text ".."
    → with_root (escape is_path_byte (join_path (base ∷ text "s" ∷ e ∷ [])))
      ≡ text "/s/" ++ escape is_path_byte e
unfolding join_path
page_path base e (inl b) l n h u = rw b (
    rw (join_page e (not_is_empty e n)) (
      unfold join in
      rw (clean_root e l n h u)
        (rw (escape-append is_path_byte (text "/s/") e) (unfold escape is_path_byte in refl))))
page_path base e (inr b) l n h u = rw b (
    rw (join_page e (not_is_empty e n)) (
      unfold join in
      rw (clean_below e l n h u)
        (rw (escape-append is_path_byte (text "s/") e) (unfold escape is_path_byte in refl))))

abbrev pub page_url : Url → Text → Text
page_url u path = url_text (record u { path = path; raw_query = text ""; fragment = text "" })

segment-path : (c : ℕ) → is_segment_byte c ≡ true → is_path_byte c ≡ true
unfolding is_segment_byte is_path_byte
segment-path c h = ground (arith, h)

escape_kept :
    (p : ℕ → Bool) (s : Text)
    → All (λ c. is_segment_byte c ≡ true) s
    → ((c : ℕ) → is_segment_byte c ≡ true → p c ≡ true)
    → escape p s ≡ s
unfolding escape
escape_kept p [] h k = refl
escape_kept p (c ∷ s) h k = rw (k c (h.0)) (ap (◌∷◌ c) (escape_kept p s h.1 k))

path_escape_kept : (s : Text) → All (λ c. is_segment_byte c ≡ true) s → path_escape s ≡ s
unfolding path_escape
path_escape_kept s h = escape_kept is_segment_byte s h (λ c k. k)

module _ (parse_url : Text → Result Url) where
  -- The page of a server of a site with its pages at the root is below /s/, with the id escaped
  -- twice: by url.PathEscape, and again when the URL is printed. This holds of every id but the empty
  -- one and the two that stand for directories.
  pub detail_url-escape :
      (endpoint id : Text) (u : Url)
      → parse_url endpoint ≡ ok u
      → IsRoot u.path
      → IsElement id
      → detail_url parse_url endpoint id
        ≡ ok (page_url u (text "/s/" ++ escape is_path_byte (path_escape id)))
  unfolding detail_url page_of url_string
  detail_url-escape endpoint id u p b i = rw p (
      rw
        (page_path u.path (path_escape id) b (path_escape-Lacks id)
          (λ e. i.given (escape_empty id e)) (λ e. i.not_here (escape_here id e))
          (λ e. i.not_up (escape_up id e)))
        refl)

  -- The page of a server of a site with its pages at the root is /s/ and the id, for an id of bytes
  -- that a path segment may hold and that is not empty and not one of the two for directories.
  pub detail_url_plain :
      (endpoint id : Text) (u : Url)
      → parse_url endpoint ≡ ok u
      → IsRoot u.path
      → IsElement id
      → All (λ c. is_segment_byte c ≡ true) id
      → detail_url parse_url endpoint id ≡ ok (page_url u (text "/s/" ++ id))
  detail_url_plain endpoint id u p b i h =
      detail_url-escape endpoint id u p b i
      ∙ ap (λ (e : Text). ok (page_url u (text "/s/" ++ e)))
          (ap (escape is_path_byte) (path_escape_kept id h)
            ∙ escape_kept is_path_byte id h segment-path)
