-- ===== src/Moddb/Search/Filter.antt =====
-- moddb/client.go Search: which items are found, and their order.
use vintagestory_go.Base.{
  ◌≡◌, ◌⊎◌, refl, sym, ap, ◌↔◌, Bool, true, false, not, Option, none, some, List, [], ◌∷◌, keep,
  all, map, member, All, In, Text, is_empty, Bool-cases, inl, inr, arith,
}
use vintagestory_go.Base.Membership.{In-keep, In-sort_stable, member_iff}
use vintagestory_go.Base.Int.{ℤ, ◌≤ℤ◌}
use vintagestory_go.Base.Strings.{to_lower, lt_text_asym, lt_text_negtrans}
use vintagestory_go.Base.Sort.{IsOrdered, IsStrictWeak, sort_stable-IsOrdered}
use vintagestory_go.Moddb.Types.{Side, unknown, Mod, SearchOptions}
use vintagestory_go.Moddb.Search.{
  matches_text, contains_all_fold, eq_side, wrong_side, too_old, is_no_tag, passes, date_after,
  comes_first, query_of, found,
}

date_after-asym : (a b : Option ℤ) → date_after a b ≡ true → date_after b a ≡ false
unfolding date_after
date_after-asym none b h = ground arith
date_after-asym (some a) none h = refl
date_after-asym (some a) (some b) h = ground arith

date_after_negtrans :
    (a b c : Option ℤ) → date_after a b ≡ false → date_after b c ≡ false → date_after a c ≡ false
unfolding date_after
date_after_negtrans none b c h k = refl
date_after_negtrans (some a) none c h k = ground arith
date_after_negtrans (some a) (some b) none h k = ground arith
date_after_negtrans (some a) (some b) (some c) h k = ground arith

comes_first-IsStrictWeak : (by : Text) (query : Bool) → IsStrictWeak (comes_first by query)
unfolding comes_first
comes_first-IsStrictWeak by query = record {
  asym = λ a b h. ground (
    arith,
    lt_text_asym (to_lower a.name) (to_lower b.name),
    lt_text_asym (to_lower b.name) (to_lower a.name),
    date_after-asym a.updated_at b.updated_at,
  );
  negtrans = λ a b c h k. ground (
    arith,
    lt_text_negtrans (to_lower a.name) (to_lower b.name) (to_lower c.name),
    lt_text_negtrans (to_lower c.name) (to_lower b.name) (to_lower a.name),
    date_after_negtrans a.updated_at b.updated_at c.updated_at,
  );
}

-- Updated at a time that is not before the given one.
abbrev pub IsRecent : Option ℤ → Option ℤ → Type 0
IsRecent none updated = Unit {0}
IsRecent (some after) none = ⊥
IsRecent (some after) (some updated) = after ≤ℤ updated

-- What the documented filters ask of a mod.
pub record IsMatch (q : SearchOptions) (m : Mod) : Type 0 where
  pub text_found : (is_empty (query_of q) ≡ true) ⊎ (matches_text m (query_of q) ≡ true)
  pub side_meant : (q.side ≡ none) ⊎ (q.side ≡ some unknown) ⊎ (q.side ≡ some m.side)
  pub recent : IsRecent q.updated_after m.updated_at
  pub tagged : All (λ t. In (to_lower t) (map to_lower m.tags)) q.tags

all-In :
    (vs rs : List Text)
    → (all (λ x. member (to_lower x) vs) rs ≡ true) ↔ All (λ t. In (to_lower t) vs) rs
all-In vs [] = (λ h. tt, λ h. refl)
all-In vs (r ∷ rs) =
    let (to, from) = all-In vs rs in
    let (to', from') = member_iff (to_lower r) vs in
    (
      (λ h. (to' (ground (arith, h)), to (ground (arith, h)))),
      (λ h.
          let (m, n) : (member (to_lower r) vs ≡ true)
              × (all (λ x. member (to_lower x) vs) rs ≡ true) =
            (from' h.0, from h.1) in
          rw m n),
    )

eq_side_refl : (s : Side) → eq_side s s ≡ true
eq_side_refl Side.client = refl
eq_side_refl Side.server = refl
eq_side_refl Side.both = refl
eq_side_refl Side.unknown = refl

eq_side→eq : (s t : Side) → eq_side s t ≡ true → s ≡ t
eq_side→eq Side.client Side.client h = refl
eq_side→eq Side.client Side.server h = ground (arith, h)
eq_side→eq Side.client Side.both h = ground (arith, h)
eq_side→eq Side.client Side.unknown h = ground (arith, h)
eq_side→eq Side.server Side.client h = ground (arith, h)
eq_side→eq Side.server Side.server h = refl
eq_side→eq Side.server Side.both h = ground (arith, h)
eq_side→eq Side.server Side.unknown h = ground (arith, h)
eq_side→eq Side.both Side.client h = ground (arith, h)
eq_side→eq Side.both Side.server h = ground (arith, h)
eq_side→eq Side.both Side.both h = refl
eq_side→eq Side.both Side.unknown h = ground (arith, h)
eq_side→eq Side.unknown Side.client h = ground (arith, h)
eq_side→eq Side.unknown Side.server h = ground (arith, h)
eq_side→eq Side.unknown Side.both h = ground (arith, h)
eq_side→eq Side.unknown Side.unknown h = refl

side_cases :
    (o : Option Side) (s : Side)
    → (wrong_side o s ≡ false) ↔ ((o ≡ none) ⊎ (o ≡ some unknown) ⊎ (o ≡ some s))
unfolding wrong_side
side_cases none s = (λ h. inl refl, λ h. refl)
side_cases (some d) s = elim (Bool-cases (eq_side d unknown)) [
  | inl e ↦ rw (eq_side→eq d unknown e) (λ h. inr (inl refl), λ h. refl)
  | inr e ↦ (
    (λ h. inr (inr (ap some (sym (eq_side→eq s d (ground (arith, h, e))))))),
    (λ h. ground (arith, h, e, eq_side_refl s)),
  )
]

too_old_iff : (o u : Option ℤ) → (too_old o u ≡ false) ↔ IsRecent o u
unfolding too_old
too_old_iff none u = (λ h. tt, λ h. refl)
too_old_iff (some after) none = (λ h. ground (arith, h), λ h. absurd h)
too_old_iff (some after) (some updated) = (λ h. ground (arith, h), λ h. ground (arith, h))

no_tags :
    (tags : List Text) (m : Mod)
    → is_no_tag tags ≡ true
    → All (λ t. In (to_lower t) (map to_lower m.tags)) tags
no_tags [] m h = tt
no_tags (t ∷ ts) m h = absurd (ground (arith, h))

record Tests (q : SearchOptions) (m : Mod) : Type 0 where
  pub text_found : (is_empty (query_of q) ≡ true) ⊎ (matches_text m (query_of q) ≡ true)
  pub side_right : wrong_side q.side m.side ≡ false
  pub time_right : too_old q.updated_after m.updated_at ≡ false
  pub tags_right : (is_no_tag q.tags ≡ true) ⊎ (contains_all_fold m.tags q.tags ≡ true)

passes-Tests : (q : SearchOptions) (m : Mod) → passes q (query_of q) m ≡ true → Tests q m
unfolding passes
passes-Tests q m h = record {
  text_found = ground (arith, h);
  side_right = ground (arith, h);
  time_right = ground (arith, h);
  tags_right = ground (arith, h);
}

Tests-pass : (q : SearchOptions) (m : Mod) → Tests q m → passes q (query_of q) m ≡ true
unfolding passes
Tests-pass q m t = ground (arith, t.text_found, t.side_right, t.time_right, t.tags_right)

passes_iff : (q : SearchOptions) (m : Mod) → (passes q (query_of q) m ≡ true) ↔ IsMatch q m
unfolding contains_all_fold
passes_iff q m =
    let tags = all-In (map to_lower m.tags) q.tags in
    (
      (λ h.
          let t = passes-Tests q m h in
          record {
            text_found = t.text_found;
            side_meant = (side_cases q.side m.side).0 t.side_right;
            recent = (too_old_iff q.updated_after m.updated_at).0 t.time_right;
            tagged = elim t.tags_right [ inl e ↦ no_tags q.tags m e | inr e ↦ tags.0 e ];
          }),
      (λ i. Tests-pass q m (record {
        text_found = i.text_found;
        side_right = (side_cases q.side m.side).1 i.side_meant;
        time_right = (too_old_iff q.updated_after m.updated_at).1 i.recent;
        tags_right = inr (tags.1 i.tagged);
      })),
    )

-- A mod is found exactly if it is in the catalog and matches the text, the side, the time and every
-- tag of the search, each where it is given.
In-found :
    (q : SearchOptions) (items : List Mod) (m : Mod)
    → In m (found q items) ↔ (In m items × IsMatch q m)
unfolding found
In-found q items m =
    let kept = keep (passes q (query_of q)) items in
    let sorted = In-sort_stable (comes_first q.sort (not (is_empty (query_of q)))) m kept in
    let filtered = In-keep (passes q (query_of q)) m items in
    let (to, from) = passes_iff q m in
    (
      (λ i. let (there, pass) = filtered.0 (sorted.0 i) in (there, to pass)),
      (λ i. sorted.1 (filtered.1 (i.0, from i.1))),
    )

-- No found mod stands before one that the sort key puts in front of it.
found-IsOrdered :
    (q : SearchOptions) (items : List Mod)
    → IsOrdered (comes_first q.sort (not (is_empty (query_of q)))) (found q items)
unfolding found
found-IsOrdered q items =
    sort_stable-IsOrdered _ (comes_first-IsStrictWeak q.sort (not (is_empty (query_of q)))) _

-- A mod is found exactly if it is in the catalog and matches the text, the side, the time and every
-- tag of the search, each where it is given; and no found mod stands before one that the sort key of
-- the search puts in front of it.
pub found-IsSelection :
    (q : SearchOptions) (items : List Mod)
    → ((m : Mod) → In m (found q items) ↔ (In m items × IsMatch q m))
      × IsOrdered (comes_first q.sort (not (is_empty (query_of q)))) (found q items)
found-IsSelection q items = (In-found q items, found-IsOrdered q items)
