-- ===== src/News/Parser/Article.antt =====
-- news/parser.go canonicalArticleURL and parseDescription: the article that an item leads to.
use vintagestory_go.Base.{
  ltb, ◌==◌, ◌≡◌, ◌⊎◌, inl, inr, refl, true, false, not, ◌&&◌, Option, none, some, List, [], ◌∷◌,
  ◌++◌, Text, text, is_empty, eq_text, eq_text_iff, if◌then◌else◌, Bool-cases, arith,
}
use vintagestory_go.Base.Strings.{trim_space, has_prefix}
use vintagestory_go.Vshttp.Request.{Url}
use vintagestory_go.News.Types.{
  RssItem, Token, text_token, start_tag, self_closing, end_tag, other_token, Readers,
}
use vintagestory_go.News.Parser.{
  Scan, is_hidden, is_set, is_rejected, official_article, canonical_article_url, attribute,
  attributes, scan_token, scan_tokens, finish_scan, parse_description,
}

abbrev pub official_prefix : Text
official_prefix = text "https://www.vintagestory.at/blog.html/news/"

abbrev pub IsOfficialOrEmpty : Text → Type 0
IsOfficialOrEmpty t = (is_empty t ≡ true) ⊎ (has_prefix t official_prefix ≡ true)

has_prefix-append : (s t p : Text) → has_prefix s p ≡ true → has_prefix (s ++ t) p ≡ true
unfolding has_prefix
has_prefix-append s t [] h = refl
has_prefix-append [] t (b ∷ p) h = absurd (ground (arith, h))
has_prefix-append (a ∷ s) t (b ∷ p) h = ground (arith, h, has_prefix-append s t p)

after_host :
    (s : Text)
    → has_prefix s (text "/blog.html/news/") ≡ true
    → has_prefix (text "https://www.vintagestory.at" ++ s) official_prefix ≡ true
unfolding has_prefix
after_host s h = h

no_user : (o : Option Text) → is_set o ≡ false → o ≡ none
no_user none h = refl
no_user (some u) h = absurd (ground (arith, h))

official_article-IsOfficialOrEmpty : (o : Option Url) → IsOfficialOrEmpty (official_article o)
unfolding official_article
official_article-IsOfficialOrEmpty none = inl refl
official_article-IsOfficialOrEmpty (some u) = elim (Bool-cases (is_rejected u)) [
  | inl e ↦ rw e (inl refl)
  | inr e ↦
      let scheme : u.scheme ≡ text "https" =
        (eq_text_iff u.scheme (text "https")).0 (ground (arith, e)) in
      let user : u.user ≡ none = no_user u.user (ground (arith, e)) in
      let path : has_prefix u.path (text "/blog.html/news/") ≡ true = ground (arith, e) in
      let query : Text = if is_empty u.raw_query then text "" else text "?" ++ u.raw_query in
      let mark : Text = if is_empty u.fragment then text "" else text "#" ++ u.fragment in
      let long =
        has_prefix-append (u.path ++ query) mark _ (has_prefix-append u.path query _ path) in
      rw e (inr (rw (scheme, user) (after_host (u.path ++ query ++ mark) long)))
]

module _ (io : Readers) where
  attribute-IsOfficialOrEmpty :
      (name : Text) (s : Scan) (a : Text × Text)
      → IsOfficialOrEmpty s.article_url
      → IsOfficialOrEmpty (attribute io name s a).article_url
  unfolding attribute canonical_article_url
  attribute-IsOfficialOrEmpty name s (key, value) h =
      let candidate = official_article (io.parse_url (trim_space value)) in
      elim (Bool-cases
        (eq_text name (text "img") && eq_text key (text "src") && is_empty s.image_url)) [
          | inl e ↦ rw e h
          | inr e ↦
              elim (Bool-cases (
                eq_text name (text "a") && eq_text key (text "href") && not (is_empty candidate))) [
                  | inl f ↦
                      rw (e, f)
                        (official_article-IsOfficialOrEmpty (io.parse_url (trim_space value)))
                  | inr f ↦ rw (e, f) h
                ]
        ]

  attributes-IsOfficialOrEmpty :
      (name : Text) (s : Scan) (attrs : List (Text × Text))
      → IsOfficialOrEmpty s.article_url
      → IsOfficialOrEmpty (attributes io name s attrs).article_url
  unfolding attributes
  attributes-IsOfficialOrEmpty name s [] h = h
  attributes-IsOfficialOrEmpty name s (a ∷ attrs) h =
      attributes-IsOfficialOrEmpty name (attribute io name s a) attrs
        (attribute-IsOfficialOrEmpty name s a h)

  scan_token-IsOfficialOrEmpty :
      (s : Scan) (t : Token)
      → IsOfficialOrEmpty s.article_url
      → IsOfficialOrEmpty (scan_token io s t).article_url
  unfolding scan_token
  scan_token-IsOfficialOrEmpty s (text_token t) h = elim (Bool-cases (s.skip_depth == 0)) [
    | inl e ↦ rw e h
    | inr e ↦ rw e h
  ]
  scan_token-IsOfficialOrEmpty s (start_tag name attrs) h = elim (Bool-cases (is_hidden name)) [
    | inl e ↦ rw e h
    | inr e ↦ rw e (attributes-IsOfficialOrEmpty name s attrs h)
  ]
  scan_token-IsOfficialOrEmpty s (self_closing name attrs) h = elim (Bool-cases (is_hidden name)) [
    | inl e ↦ rw e h
    | inr e ↦ rw e (attributes-IsOfficialOrEmpty name s attrs h)
  ]
  scan_token-IsOfficialOrEmpty s (end_tag name) h =
      elim (Bool-cases (is_hidden name && ltb 0 s.skip_depth)) [ inl e ↦ rw e h | inr e ↦ rw e h ]
  scan_token-IsOfficialOrEmpty s other_token h = h

  scan_tokens-IsOfficialOrEmpty :
      (s : Scan) (ts : List Token)
      → IsOfficialOrEmpty s.article_url
      → IsOfficialOrEmpty (scan_tokens io s ts).article_url
  unfolding scan_tokens
  scan_tokens-IsOfficialOrEmpty s [] h = h
  scan_tokens-IsOfficialOrEmpty s (t ∷ ts) h =
      scan_tokens-IsOfficialOrEmpty (scan_token io s t) ts (scan_token-IsOfficialOrEmpty s t h)

  parse_description-IsOfficialOrEmpty :
      (value : Text) → IsOfficialOrEmpty (parse_description io value).1.1
  unfolding parse_description finish_scan
  parse_description-IsOfficialOrEmpty value =
      let scanned =
        scan_tokens-IsOfficialOrEmpty
          (record { words = text ""; skip_depth = 0; image_url = text ""; article_url = text "" })
          (io.tokens value).0 (inl refl) in
      elim (Bool-cases (io.tokens value).1) [ inl e ↦ rw e scanned | inr e ↦ rw e scanned ]

  pub article-IsOfficialOrEmpty :
      (raw : RssItem)
      → let direct = canonical_article_url io raw.link in
        IsOfficialOrEmpty
          (if is_empty direct then (parse_description io raw.description).1.1 else direct)
  unfolding canonical_article_url
  article-IsOfficialOrEmpty raw =
      elim (Bool-cases (is_empty (official_article (io.parse_url (trim_space raw.link))))) [
        | inl e ↦ rw e (parse_description-IsOfficialOrEmpty raw.description)
        | inr e ↦ rw e (official_article-IsOfficialOrEmpty (io.parse_url (trim_space raw.link)))
      ]
