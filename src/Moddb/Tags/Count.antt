-- ===== src/Moddb/Tags/Count.antt =====
-- moddb/client.go ListTags: the counts and the order of its tags.
use vintagestory_go.Base.{
  ℕ, ◌+◌, ◌≡◌, refl, sym, true, false, List, [], ◌∷◌, Text, All, eq_text, eq_text_iff,
  if◌then◌else◌, Bool-cases, inl, inr, arith,
}
use vintagestory_go.Base.Strings.{to_lower, lt_text_asym, lt_text_negtrans, lt_text_total}
use vintagestory_go.Base.Sort.{insert_stable, sort_stable, insert_stable-All, sort_stable-All}
use vintagestory_go.Moddb.Types.{Mod, Tag}
use vintagestory_go.Moddb.Tags.{key_of, count_name, count_names, count_mods, tag_less, tags_of}

-- How often a folded name is among names, and among the tags of mods.
pub uses : Text → List Text → ℕ
uses k [] = 0
uses k (n ∷ ns) = (if eq_text (to_lower n) k then 1 else 0) + uses k ns

pub uses_in : Text → List Mod → ℕ
uses_in k [] = 0
uses_in k (m ∷ ms) = uses k m.tags + uses_in k ms

-- The counts of the tags with a key.
pub total : Text → List Tag → ℕ
total k [] = 0
total k (t ∷ ts) = (if eq_text (key_of t) k then t.count else 0) + total k ts

total-count_name :
    (k name : Text) (ts : List Tag)
    → total k (count_name name ts) ≡ total k ts + (if eq_text (to_lower name) k then 1 else 0)
unfolding total count_name
total-count_name k name [] = ground arith
total-count_name k name (t ∷ ts) = elim (Bool-cases (eq_text (key_of t) (to_lower name))) [
  | inl e ↦
      let same : key_of t ≡ to_lower name = (eq_text_iff (key_of t) (to_lower name)).0 e in
      rw e (rw same (ground arith))
  | inr e ↦ rw e (let rest = total-count_name k name ts in omega (arith, rest))
]

total-count_names :
    (k : Text) (names : List Text) (ts : List Tag)
    → total k (count_names names ts) ≡ total k ts + uses k names
unfolding count_names uses
total-count_names k [] ts = omega arith
total-count_names k (n ∷ ns) ts =
    omega (arith, total-count_names k ns (count_name n ts), total-count_name k n ts)

total-count_mods :
    (k : Text) (ms : List Mod) (ts : List Tag)
    → total k (count_mods ms ts) ≡ total k ts + uses_in k ms
unfolding count_mods uses_in
total-count_mods k [] ts = omega arith
total-count_mods k (m ∷ ms) ts =
    omega (arith, total-count_mods k ms (count_names m.tags ts), total-count_names k m.tags ts)

total-insert_stable :
    (k : Text) (t : Tag) (ts : List Tag) → total k (insert_stable tag_less t ts) ≡ total k (t ∷ ts)
unfolding total insert_stable
total-insert_stable k t [] = refl
total-insert_stable k t (u ∷ us) = elim (Bool-cases (tag_less u t)) [
  | inl e ↦ rw e (let rest = total-insert_stable k t us in omega (arith, rest))
  | inr e ↦ rw e refl
]

total-sort_stable : (k : Text) (ts : List Tag) → total k (sort_stable tag_less ts) ≡ total k ts
unfolding total sort_stable
total-sort_stable k [] = refl
total-sort_stable k (t ∷ ts) =
    omega (arith, total-insert_stable k t (sort_stable tag_less ts), total-sort_stable k ts)

-- No tag of the list has the key.
abbrev Lacks : Text → List Tag → Type 0
Lacks k ts = All (λ t. eq_text (key_of t) k ≡ false) ts

abbrev IsDistinct : List Tag → Type 0
IsDistinct [] = Unit {0}
IsDistinct (t ∷ ts) = Lacks (key_of t) ts × IsDistinct ts

-- Each tag comes before all later ones.
abbrev pub IsAscending : List Tag → Type 0
IsAscending [] = Unit {0}
IsAscending (t ∷ ts) = All (λ u. tag_less t u ≡ true) ts × IsAscending ts

eq_text_sym : (s t : Text) → eq_text s t ≡ false → eq_text t s ≡ false
eq_text_sym s t h = elim (Bool-cases (eq_text t s)) [
  | inl e ↦ absurd (ground (arith, h, (eq_text_iff s t).1 (sym ((eq_text_iff t s).0 e))))
  | inr e ↦ e
]

count_name-Lacks :
    (k name : Text) (ts : List Tag)
    → eq_text (to_lower name) k ≡ false
    → Lacks k ts
    → Lacks k (count_name name ts)
unfolding count_name
count_name-Lacks k name [] h l = (h, tt)
count_name-Lacks k name (t ∷ ts) h l = elim (Bool-cases (eq_text (key_of t) (to_lower name))) [
  | inl e ↦ rw e l
  | inr e ↦ rw e (l.0, count_name-Lacks k name ts h l.1)
]

count_name-IsDistinct :
    (name : Text) (ts : List Tag) → IsDistinct ts → IsDistinct (count_name name ts)
unfolding count_name
count_name-IsDistinct name [] d = (tt, tt)
count_name-IsDistinct name (t ∷ ts) d = elim (Bool-cases (eq_text (key_of t) (to_lower name))) [
  | inl e ↦ rw e d
  | inr e ↦ rw e (
    count_name-Lacks (key_of t) name ts (eq_text_sym (key_of t) (to_lower name) e) d.0,
    count_name-IsDistinct name ts d.1,
  )
]

count_names-IsDistinct :
    (names : List Text) (ts : List Tag) → IsDistinct ts → IsDistinct (count_names names ts)
unfolding count_names
count_names-IsDistinct [] ts d = d
count_names-IsDistinct (n ∷ ns) ts d =
    count_names-IsDistinct ns (count_name n ts) (count_name-IsDistinct n ts d)

count_mods-IsDistinct :
    (ms : List Mod) (ts : List Tag) → IsDistinct ts → IsDistinct (count_mods ms ts)
unfolding count_mods
count_mods-IsDistinct [] ts d = d
count_mods-IsDistinct (m ∷ ms) ts d =
    count_mods-IsDistinct ms (count_names m.tags ts) (count_names-IsDistinct m.tags ts d)

below :
    (t u : Tag) → tag_less u t ≡ false → eq_text (key_of u) (key_of t) ≡ false → tag_less t u ≡ true
below t u h n = elim (Bool-cases (tag_less t u)) [
  | inl e ↦ e
  | inr e ↦ absurd (
      ground (
        arith,
        n,
        (eq_text_iff (key_of u) (key_of t)).1 (sym (lt_text_total (key_of t) (key_of u) e h)),
      ))
]

before-All :
    (t u : Tag) (us : List Tag)
    → tag_less t u ≡ true
    → All (λ v. tag_less u v ≡ true) us
    → All (λ v. tag_less t v ≡ true) us
before-All t u [] h l = tt
before-All t u (v ∷ vs) h l = (
  ground (
    arith,
    h,
    l.0,
    lt_text_negtrans (key_of t) (key_of v) (key_of u),
    lt_text_asym (key_of u) (key_of v),
  ),
  before-All t u vs h l.1,
)

insert_stable-IsAscending :
    (t : Tag) (ts : List Tag)
    → Lacks (key_of t) ts
    → IsAscending ts
    → IsAscending (insert_stable tag_less t ts)
unfolding insert_stable
insert_stable-IsAscending t [] n a = (tt, tt)
insert_stable-IsAscending t (u ∷ us) n a = elim (Bool-cases (tag_less u t)) [
  | inl e ↦ rw e (
    insert_stable-All tag_less (λ v. tag_less u v ≡ true) t us e a.0,
    insert_stable-IsAscending t us n.1 a.1,
  )
  | inr e ↦ let first = below t u e n.0 in rw e ((first, before-All t u us first a.0), a)
]

sort_stable-IsAscending : (ts : List Tag) → IsDistinct ts → IsAscending (sort_stable tag_less ts)
unfolding sort_stable
sort_stable-IsAscending [] d = tt
sort_stable-IsAscending (t ∷ ts) d =
    insert_stable-IsAscending t (sort_stable tag_less ts)
      (sort_stable-All tag_less (λ u. eq_text (key_of u) (key_of t) ≡ false) ts d.0)
      (sort_stable-IsAscending ts d.1)

-- ListTags lists each folded tag once, in ascending order, and for every folded name the counts of its
-- tags sum up to the number of its uses in the catalog.
pub tags_of-IsAscending :
    (items : List Mod) (k : Text)
    → IsAscending (tags_of items) × (total k (tags_of items) ≡ uses_in k items)
unfolding tags_of total
tags_of-IsAscending items k = (
  sort_stable-IsAscending (count_mods items []) (count_mods-IsDistinct items [] tt),
  omega (arith, total-sort_stable k (count_mods items []), total-count_mods k items []),
)
