-- ===== src/Moddb/Search/Paging.antt =====
-- moddb/client.go Search: the pages of a search.
use vintagestory_go.Base.{
  ◌↔◌, ℕ, zero, suc, ◌+◌, ◌-◌, ◌*◌, ◌/◌, ◌%◌, ◌≤◌, ◌<◌, ltb, ◌≡◌, refl, sym, ap, ◌∙◌, true, Option,
  none, some, List, [], ◌∷◌, ◌++◌, length, length-drop, length-take, take, drop, Bool-cases, inl,
  inr, arith,
}
use native.Mathlib.Nat.{div-add-mod, mod-lt, mul-le-mul_right, lt_of_mul-lt-mul_right}
use vintagestory_go.Base.Int.{ℤ, pos, negsuc, wrap64, wrap64-small, max_int64}
use vintagestory_go.Moddb.Types.{Mod, SearchOptions}
use vintagestory_go.Moddb.Search.{
  Page, slice, slice_from, page_of, size_of, page_from, found, passes, search_page,
}

module _ {ℓ} {A : Type ℓ} where
  take_nil : (n : ℕ) → take {A = A} n [] ≡ []
  take_nil zero = refl
  take_nil (suc n) = refl

  take_parts : (n a b : ℕ) (xs : List A) → n ≡ a + b → take n xs ≡ take a xs ++ take b (drop a xs)
  take_parts n zero b xs e = ap (λ k. take k xs) (omega (arith, e))
  take_parts zero (suc a) b xs e = absurd (omega (arith, e))
  take_parts (suc n) (suc a) b [] e = sym (take_nil b)
  take_parts (suc n) (suc a) b (x ∷ xs) e = ap (◌∷◌ x) (take_parts n a b xs (omega (arith, e)))

  drop_all : (n : ℕ) (xs : List A) → length xs ≤ n → drop n xs ≡ []
  drop_all zero [] h = refl
  drop_all zero (x ∷ xs) h = absurd (omega (arith, h))
  drop_all (suc n) [] h = refl
  drop_all (suc n) (x ∷ xs) h = drop_all n xs (omega (arith, h))

  take_all : (n : ℕ) (xs : List A) → length xs ≤ n → take n xs ≡ xs
  take_all zero [] h = refl
  take_all zero (x ∷ xs) h = absurd (omega (arith, h))
  take_all (suc n) [] h = refl
  take_all (suc n) (x ∷ xs) h = ap (◌∷◌ x) (take_all n xs (omega (arith, h)))

round_up : (t s : ℕ) → 1 ≤ s → (t ≤ ((t + s - 1) / s) * s) × (((t + s - 1) / s) * s ≤ t + s - 1)
round_up t s h = (
  omega (arith, div-add-mod (t + s - 1) s, mod-lt (t + s - 1) h),
  omega (arith, div-add-mod (t + s - 1) s),
)

size_of-bounds : (raw : ℤ) → (1 ≤ size_of raw) × (size_of raw ≤ 60)
unfolding size_of
size_of-bounds (negsuc n) = (omega arith, omega arith)
size_of-bounds (pos n) = ground arith

slice-items :
    (xs : List Mod) (page size start : ℕ)
    → (slice xs page size start).items ≡ take size (drop start xs)
unfolding slice
slice-items xs page size start = elim (Bool-cases (ltb (length xs) start)) [
  | inl h ↦
      let gone : drop start xs ≡ [] = drop_all start xs (ground (arith, h)) in
      let nothing : drop (length xs) xs ≡ [] = drop_all (length xs) xs (omega arith) in
      rw (h, gone, nothing) (take_nil _ ∙ sym (take_nil size))
  | inr h ↦ elim (Bool-cases (ltb (length xs) (start + size))) [
    | inl k ↦
        let rest = length-drop start xs in
        rw (h, k)
          (take_all (length xs - start) (drop start xs) (omega (arith, rest))
            ∙ sym (take_all size (drop start xs) (ground (arith, rest, k, h))))
    | inr k ↦ rw (h, k) (let e : start + size - start ≡ size = omega arith in rw e refl)
  ]
]

items_of : Option Page → List Mod
items_of none = []
items_of (some p) = p.items

-- Page n + 1 of a list, as long as the start of the page fits an int64.
page_from-items :
    (xs : List Mod) (n : ℕ) (raw : ℤ)
    → n * size_of raw ≤ max_int64
    → items_of (page_from xs (pos (suc n)) raw) ≡ take (size_of raw) (drop (n * size_of raw) xs)
unfolding page_from slice_from page_of items_of
page_from-items xs n raw h =
    let e : suc n - 1 ≡ n = omega arith in
    let start : wrap64 ((suc n - 1) * size_of raw) ≡ pos (n * size_of raw) =
      ap (λ k. wrap64 (k * size_of raw)) e ∙ wrap64-small (n * size_of raw) h in
    rw start (slice-items xs (suc n) (size_of raw) (n * size_of raw))

-- The pages 1 to n of a search, one after the other.
unfoldable pub pages : SearchOptions → List Mod → ℕ → List Mod
unfolding items_of
pages q items zero = []
pages q items (suc n) =
    pages q items n ++ items_of (search_page (record q { page = pos (suc n) }) items)

-- TotalPages of the results.
unfoldable pub page_count : SearchOptions → List Mod → ℕ
page_count q items = (length (found q items) + size_of q.page_size - 1) / size_of q.page_size

pages-take :
    (q : SearchOptions) (items : List Mod) (n : ℕ)
    → n * size_of q.page_size ≤ max_int64
    → pages q items n ≡ take (n * size_of q.page_size) (found q items)
unfolding pages search_page found passes
pages-take q items zero h = let e : 0 * size_of q.page_size ≡ 0 = omega arith in rw e refl
pages-take q items (suc n) h =
    let size = size_of q.page_size in
    let e : suc n * size ≡ n * size + size = omega arith in
    let fits : n * size ≤ max_int64 = omega (arith, e, h) in
    ap (λ l. l ++ items_of (page_from (found q items) (pos (suc n)) q.page_size))
      (pages-take q items n fits)
    ∙ ap (λ l. take (n * size) (found q items) ++ l)
        (page_from-items (found q items) n q.page_size fits)
    ∙ sym (take_parts (suc n * size) (n * size) size (found q items) e)

-- The pages 1 to TotalPages of a search, one after the other, are the filtered and sorted items, if
-- their number leaves room below the largest int64.
pub pages-page_count :
    (q : SearchOptions) (items : List Mod)
    → length (found q items) + 60 ≤ max_int64
    → pages q items (page_count q items) ≡ found q items
unfolding page_count
pages-page_count q items h =
    let (low, high) = size_of-bounds q.page_size in
    let (enough, close) = round_up (length (found q items)) (size_of q.page_size) low in
    pages-take q items (page_count q items) (omega (arith, close, high, h))
    ∙ take_all _ (found q items) enough

-- What the numbers of a page promise.
pub record IsPage (q : SearchOptions) (items : List Mod) (p : Page) : Type 0 where
  pub numbers : (p.page ≡ page_of q.page) × (p.page_size ≡ size_of q.page_size)
  pub totals : (p.total_items ≡ length (found q items)) × (p.total_pages ≡ page_count q items)
  pub bounded : length p.items ≤ p.page_size
  pub next_iff : (p.has_next ≡ true) ↔ (p.page < p.total_pages)

slice-next :
    (xs : List Mod) (n size : ℕ)
    → 1 ≤ size
    → ((slice xs (suc n) size (n * size)).has_next ≡ true) ↔ (suc n < (length xs + size - 1) / size)
unfolding slice
slice-next xs n size h =
    let t = length xs in
    let count = (t + size - 1) / size in
    let (enough, close) = round_up t size h in
    let one_more : suc n * size ≡ n * size + size = omega arith in
    let two_more : suc (suc n) * size ≡ n * size + size + size = omega arith in
    (
      (λ k. lt_of_mul-lt-mul_right size (
          let inside : n * size + size < t = ground (arith, k) in
          omega (arith, one_more, inside, enough))),
      (λ k.
          let wide : suc (suc n) * size ≤ count * size = mul-le-mul_right size k in
          let inside : n * size + size < t = omega (arith, wide, two_more, close, h) in
          ground (arith, inside)),
    )

page_of-suc : (raw : ℤ) → (n : ℕ) × (page_of raw ≡ suc n)
unfolding page_of
page_of-suc (pos zero) = (0, refl)
page_of-suc (pos (suc n)) = (n, refl)
page_of-suc (negsuc n) = (0, refl)

-- Where the result stands.
page_from-shape :
    (xs : List Mod) (raw raw_size : ℤ) (n : ℕ) (p : Page)
    → page_of raw ≡ suc n
    → n * size_of raw_size ≤ max_int64
    → page_from xs raw raw_size ≡ some p
    → p ≡ slice xs (suc n) (size_of raw_size) (n * size_of raw_size)
unfolding page_from slice_from
page_from-shape xs raw raw_size n p e h k =
    let one_less : suc n - 1 ≡ n = omega arith in
    let start : wrap64 ((suc n - 1) * size_of raw_size) ≡ pos (n * size_of raw_size) =
      ap (λ k. wrap64 (k * size_of raw_size)) one_less ∙ wrap64-small (n * size_of raw_size) h in
    ground (arith, rw (page_from, e, start) at k)

-- A page of a search holds at most PageSize items, reports how many there are, and HasNext tells
-- exactly whether its number is below TotalPages, if the index of its first item fits an int64.
pub search_page-IsPage :
    (q : SearchOptions) (items : List Mod) (n : ℕ) (p : Page)
    → page_of q.page ≡ suc n
    → n * size_of q.page_size ≤ max_int64
    → search_page q items ≡ some p
    → IsPage q items p
unfolding search_page page_count
search_page-IsPage q items n p e h k =
    let (low, high) = size_of-bounds q.page_size in
    let size = size_of q.page_size in
    let shape = page_from-shape (found q items) q.page q.page_size n p e h k in
    rw shape (record {
      numbers = (sym e, refl);
      totals = (refl, refl);
      bounded =
          rw (slice-items (found q items) (suc n) size (n * size))
            (omega (arith, length-take size (drop (n * size) (found q items))));
      next_iff = slice-next (found q items) n size low;
    })

page_from-none :
    (xs : List Mod) (raw raw_size : ℤ)
    → (page_from xs raw raw_size ≡ none)
      ↔ (max_int64 < (page_of raw - 1) * size_of raw_size % 18446744073709551616)
unfolding page_from slice_from wrap64
page_from-none xs raw raw_size = ((λ k. ground (arith, k)), (λ k. ground (arith, k)))

-- The slice of a page panics exactly where the index of its first item, cut to 64 bits, is negative.
pub search_page-none_iff :
    (q : SearchOptions) (items : List Mod)
    → (search_page q items ≡ none)
      ↔ (max_int64 < (page_of q.page - 1) * size_of q.page_size % 18446744073709551616)
unfolding search_page
search_page-none_iff q items = page_from-none (found q items) q.page q.page_size
