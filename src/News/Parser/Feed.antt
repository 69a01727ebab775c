-- ===== src/News/Parser/Feed.antt =====
-- news/parser.go parse: what the items of a feed are.
use vintagestory_go.Base.{
  ◌≡◌, ◌≢◌, inl, inr, refl, sym, ◌∙◌, Bool, true, false, not, ◌||◌, Option, none, some, List, [],
  ◌∷◌, member, All, Text, is_empty, eq_text, eq_text_iff, if◌then◌else◌, Bool-cases, arith,
}
use vintagestory_go.Base.Int.{ℤ}
use vintagestory_go.Base.Strings.{
  trim_space, has_prefix, lt_text, lt_text_asym, lt_text_negtrans, lt_text_total,
}
use vintagestory_go.Base.Sort.{
  insert_stable, sort_stable, sort_stable-All, IsStrictWeak, IsApart, IsStrict,
  sort_stable-IsStrict,
}
use vintagestory_go.Vshttp.Json.{Decoded, decoded, undecoded, ok}
use vintagestory_go.News.Types.{Item, RssItem, Readers}
use vintagestory_go.News.Parser.{
  is_newer, canonical_article_url, parse_description, with_time, normalize_item, collect,
  sorted_or_error, parsed, parse,
}
use vintagestory_go.News.Parser.Article.{official_prefix, article-IsOfficialOrEmpty}

abbrev pub has_other_id : Item → Item → Bool
has_other_id a b = not (eq_text a.id b.id)

pub is_newer-IsStrictWeak : IsStrictWeak is_newer
unfolding is_newer
is_newer-IsStrictWeak = record {
  asym = λ a b h. ground (arith, lt_text_asym a.id b.id, h);
  negtrans = λ a b c h k. ground (arith, lt_text_negtrans a.id b.id c.id, h, k);
}

pub is_newer_total :
    (a b : Item) → has_other_id a b ≡ true → is_newer a b ≡ false → is_newer b a ≡ true
unfolding is_newer
is_newer_total a b n h = elim (Bool-cases (lt_text b.id a.id)) [
  | inl e ↦ ground (arith, h, e)
  | inr e ↦ elim (Bool-cases (lt_text a.id b.id)) [
    | inl f ↦ ground (arith, h, e, f)
    | inr f ↦ absurd (ground (arith, n, (eq_text_iff a.id b.id).1 (lt_text_total a.id b.id f e)))
  ]
]

insert_stable_present : (i : Item) (is : List Item) → insert_stable is_newer i is ≢ []
unfolding insert_stable
insert_stable_present i [] e = ground (arith, e)
insert_stable_present i (j ∷ js) e = elim (Bool-cases (is_newer j i)) [
  | inl k ↦ absurd (ground (arith, k, e))
  | inr k ↦ absurd (ground (arith, k, e))
]

module _ (io : Readers) where
  -- An item of the feed: its id is an official article.
  abbrev pub IsOfficial : Item → Type 0
  IsOfficial i =
      (has_prefix i.id official_prefix ≡ true) × (i.url ≡ i.id) × (is_empty i.title ≡ false)

  with_time-IsOfficial :
      (raw : RssItem) (o : Option ℤ) (i : Item) → with_time io raw o ≡ some i → IsOfficial i
  unfolding with_time
  with_time-IsOfficial raw none i h = cc
  with_time-IsOfficial raw (some at) i h =
      let direct = canonical_article_url io raw.link in
      let article =
        if is_empty direct then (parse_description io raw.description).1.1 else direct in
      elim (Bool-cases (is_empty (trim_space raw.title) || is_empty article)) [
        | inl e ↦ absurd (ground (arith, h, e))
        | inr e ↦
            let same : article ≡ i.id = ground (arith, h, e) in
            let url : article ≡ i.url = ground (arith, h, e) in
            let title : trim_space raw.title ≡ i.title = ground (arith, h, e) in
            let named : is_empty (trim_space raw.title) ≡ false = ground (arith, e) in
            elim (article-IsOfficialOrEmpty io raw) [
              | inl k ↦ absurd (ground (arith, e, k))
              | inr k ↦ (rw (← same) k, sym url ∙ same, rw (← title) named)
            ]
      ]

  normalize_item-IsOfficial :
      (raw : RssItem) (i : Item) → normalize_item io raw ≡ some i → IsOfficial i
  unfolding normalize_item
  normalize_item-IsOfficial raw i h = with_time-IsOfficial raw _ i h

  -- What the loop of parse collects: new ids, all different, of official items.
  record Collected (seen : List Text) (items : List Item) : Type 0 where
    pub fresh : All (λ i. member i.id seen ≡ false) items
    pub distinct : IsApart is_newer is_newer-IsStrictWeak has_other_id is_newer_total items
    pub official : All IsOfficial items

  fresh-apart :
      (a : Item) (seen : List Text) (items : List Item)
      → All (λ i. member i.id (a.id ∷ seen) ≡ false) items
      → All (λ i. has_other_id i a ≡ true) items × All (λ i. member i.id seen ≡ false) items
  fresh-apart a seen [] h = (tt, tt)
  fresh-apart a seen (i ∷ items) h =
      let (p, q) = fresh-apart a seen items h.1 in
      let other : eq_text i.id a.id ≡ false = elim (Bool-cases (eq_text i.id a.id)) [
        | inl e ↦
            absurd
              (ground (arith, h.0, (eq_text_iff a.id i.id).1 (sym ((eq_text_iff i.id a.id).0 e))))
        | inr e ↦ e
      ] in
      ((ground (arith, other), p), (ground (arith, h.0), q))

  Collected-cons :
      (a : Item) (seen : List Text) (items : List Item)
      → IsOfficial a
      → member a.id seen ≡ false
      → Collected (a.id ∷ seen) items
      → Collected seen (a ∷ items)
  Collected-cons a seen items o n c =
      let (p, q) = fresh-apart a seen items c.fresh in
      record { fresh = (n, q); distinct = (p, c.distinct); official = (o, c.official) }

  collect-Collected :
      (seen : List Text) (raws : List RssItem) → Collected seen (collect io seen raws)
  unfolding collect
  collect-Collected seen [] = record { fresh = tt; distinct = tt; official = tt }
  collect-Collected seen (raw ∷ raws) =
      go (normalize_item io raw) refl (collect-Collected seen raws)
        (λ a. collect-Collected (a.id ∷ seen) raws)
    where
      go :
          (o : Option Item)
          → normalize_item io raw ≡ o
          → Collected seen (collect io seen raws)
          → ((a : Item) → Collected (a.id ∷ seen) (collect io (a.id ∷ seen) raws))
          → Collected seen (collect io seen (raw ∷ raws))
      go none e rest next = rw (collect, e) rest
      go (some a) e rest next = elim (Bool-cases (member a.id seen)) [
        | inl m ↦ rw (collect, e) (rw m rest)
        | inr m ↦
            rw (collect, e)
              (rw m (
                Collected-cons a seen (collect io (a.id ∷ seen) raws)
                  (normalize_item-IsOfficial raw a e) m (next a)))
      ]

  -- What a parsed feed is: items of official articles, the newest first, and no two with the same id.
  pub record IsFeed (items : List Item) : Type 0 where
    pub official : All IsOfficial items
    pub strict : IsStrict is_newer is_newer-IsStrictWeak has_other_id is_newer_total items
    pub present : items ≢ []

  sorted-IsFeed : (is rs : List Item) → Collected [] is → sorted_or_error io is ≡ ok rs → IsFeed rs
  unfolding sorted_or_error sort_stable insert_stable
  sorted-IsFeed [] rs c h = absurd (ground (arith, h))
  sorted-IsFeed (i ∷ is) rs c h =
      let same : sort_stable is_newer (i ∷ is) ≡ rs = ground (arith, h) in
      rw (← same) (record {
        official = sort_stable-All is_newer IsOfficial (i ∷ is) c.official;
        strict =
            sort_stable-IsStrict is_newer is_newer-IsStrictWeak has_other_id is_newer_total (i ∷ is)
              c.distinct;
        present = insert_stable_present i (sort_stable is_newer is);
      })

  -- The items that parse returns are at least one, each with the URL of an official article as its id
  -- and with a title, no two with the same id, and the newest first, those of one time by their ids.
  pub parse-IsFeed : (content : Text) (rs : List Item) → parse io content ≡ ok rs → IsFeed rs
  unfolding parse parsed
  parse-IsFeed content rs h = go (io.parse_feed content) refl
    where
      go : (o : Decoded (List RssItem)) → io.parse_feed content ≡ o → IsFeed rs
      go (undecoded x) e = absurd (ground (arith, rw (parse, e) at h))
      go (decoded raws) e =
          sorted-IsFeed (collect io [] raws) rs (collect-Collected [] raws) (rw (parse, e) at h)
