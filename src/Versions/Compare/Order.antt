-- ===== src/Versions/Compare/Order.antt =====
-- versions/versions.go compareVersions as an order of versions.
use Prim.Native.Nat.{Ordering, compare}
use vintagestory_go.Base.{
  ℕ, ◌≡◌, refl, sym, ap, ◌∙◌, ◌≢◌, List, [], ◌∷◌, Text, if◌then◌else◌, arith,
}
use vintagestory_go.Base.Strings.{lt_text, lt_text_asym, lt_text_negtrans}
use vintagestory_go.Versions.Compare.{
  Part, number, word, negate, or_next, compare_part, compare_versions, split_version,
}
use vintagestory_go.Versions.Compare.Padded.{nought, padded, padded-negate, compare_versions-padded}

numbers_trans :
    (x y z : ℕ)
    → compare x y ≢ Ordering.gt
    → compare y z ≢ Ordering.gt
    → compare x z ≡ or_next (compare x y) (compare y z)
numbers_trans x y z h k = ground arith

abbrev words : Text → Text → Ordering
words s t = if lt_text t s then Ordering.gt else if lt_text s t then Ordering.lt else Ordering.eq

words_trans :
    (s t u : Text)
    → words s t ≢ Ordering.gt
    → words t u ≢ Ordering.gt
    → words s u ≡ or_next (words s t) (words t u)
words_trans s t u h k = ground (
  arith,
  lt_text_negtrans u t s,
  lt_text_negtrans s u t,
  lt_text_negtrans t s u,
  lt_text_negtrans t u s,
  lt_text_negtrans s t u,
  lt_text_asym s t,
  lt_text_asym t u,
  lt_text_asym s u,
)

-- Two steps up in the order make a step that is strict if one of them is.
compare_part_trans :
    (x y z : Part)
    → compare_part x y ≢ Ordering.gt
    → compare_part y z ≢ Ordering.gt
    → compare_part x z ≡ or_next (compare_part x y) (compare_part y z)
unfolding compare_part
compare_part_trans (number x) (number y) (number z) h k = numbers_trans x y z h k
compare_part_trans (number x) (number y) (word u) h k = absurd (k refl)
compare_part_trans (number x) (word t) z h k = absurd (h refl)
compare_part_trans (word s) (number y) (number z) h k = refl
compare_part_trans (word s) (number y) (word u) h k = absurd (k refl)
compare_part_trans (word s) (word t) (number z) h k = ground arith
compare_part_trans (word s) (word t) (word u) h k = words_trans s t u h k

or_next_trans :
    (a b c p q r : Ordering)
    → (a ≢ Ordering.gt → b ≢ Ordering.gt → c ≡ or_next a b)
    → (p ≢ Ordering.gt → q ≢ Ordering.gt → r ≡ or_next p q)
    → or_next a p ≢ Ordering.gt
    → or_next b q ≢ Ordering.gt
    → or_next c r ≡ or_next (or_next a p) (or_next b q)
or_next_trans Ordering.gt b c p q r h k m n = absurd (m refl)
or_next_trans Ordering.lt Ordering.gt c p q r h k m n = absurd (n refl)
or_next_trans Ordering.eq Ordering.gt c p q r h k m n = absurd (n refl)
or_next_trans Ordering.lt Ordering.lt c p q r h k m n = rw (h (λ e. cc) (λ e. cc))
or_next_trans Ordering.lt Ordering.eq c p q r h k m n = rw (h (λ e. cc) (λ e. cc))
or_next_trans Ordering.eq Ordering.lt c Ordering.gt q r h k m n = absurd (m refl)
or_next_trans Ordering.eq Ordering.lt c Ordering.lt q r h k m n = rw (h (λ e. cc) (λ e. cc))
or_next_trans Ordering.eq Ordering.lt c Ordering.eq q r h k m n = rw (h (λ e. cc) (λ e. cc))
or_next_trans Ordering.eq Ordering.eq c p q r h k m n = rw (h (λ e. cc) (λ e. cc)) (k m n)

or_next_idle : (o : Ordering) → o ≡ or_next o Ordering.eq
or_next_idle Ordering.lt = refl
or_next_idle Ordering.eq = refl
or_next_idle Ordering.gt = refl

padded_trans :
    (xs ys zs : List Part)
    → padded xs ys ≢ Ordering.gt
    → padded ys zs ≢ Ordering.gt
    → padded xs zs ≡ or_next (padded xs ys) (padded ys zs)
unfolding padded compare_part
padded_trans [] [] [] h k = refl
padded_trans [] [] (z ∷ zs) h k = refl
padded_trans [] (y ∷ ys) [] h k =
    or_next_trans (compare_part nought y) (compare_part y nought) Ordering.eq (padded [] ys)
      (padded ys []) Ordering.eq (λ m n. compare_part_trans nought y nought m n)
      (λ m n. padded_trans [] ys [] m n) h k
padded_trans [] (y ∷ ys) (z ∷ zs) h k =
    or_next_trans (compare_part nought y) (compare_part y z) (compare_part nought z) (padded [] ys)
      (padded ys zs) (padded [] zs) (λ m n. compare_part_trans nought y z m n)
      (λ m n. padded_trans [] ys zs m n) h k
padded_trans (x ∷ xs) [] [] h k = or_next_idle (padded (x ∷ xs) [])
padded_trans (x ∷ xs) [] (z ∷ zs) h k =
    or_next_trans (compare_part x nought) (compare_part nought z) (compare_part x z) (padded xs [])
      (padded [] zs) (padded xs zs) (λ m n. compare_part_trans x nought z m n)
      (λ m n. padded_trans xs [] zs m n) h k
padded_trans (x ∷ xs) (y ∷ ys) [] h k =
    or_next_trans (compare_part x y) (compare_part y nought) (compare_part x nought) (padded xs ys)
      (padded ys []) (padded xs []) (λ m n. compare_part_trans x y nought m n)
      (λ m n. padded_trans xs ys [] m n) h k
padded_trans (x ∷ xs) (y ∷ ys) (z ∷ zs) h k =
    or_next_trans (compare_part x y) (compare_part y z) (compare_part x z) (padded xs ys)
      (padded ys zs) (padded xs zs) (λ m n. compare_part_trans x y z m n)
      (λ m n. padded_trans xs ys zs m n) h k

-- Swapping the two versions swaps the result of compareVersions.
pub compare_versions-swap : (a b : Text) → compare_versions b a ≡ negate (compare_versions a b)
compare_versions-swap a b =
    compare_versions-padded b a
    ∙ padded-negate (split_version a) (split_version b)
    ∙ sym (ap negate (compare_versions-padded a b))

-- If compareVersions finds a not newer than b and b not newer than c, it finds a not newer than c,
-- and a and c equal only if both pairs are equal.
pub compare_versions_steps :
    (a b c : Text)
    → compare_versions a b ≢ Ordering.gt
    → compare_versions b c ≢ Ordering.gt
    → compare_versions a c ≡ or_next (compare_versions a b) (compare_versions b c)
compare_versions_steps a b c h k =
    rw (compare_versions-padded a c, compare_versions-padded a b, compare_versions-padded b c)
      (padded_trans (split_version a) (split_version b) (split_version c)
        (λ e. h (compare_versions-padded a b ∙ e)) (λ e. k (compare_versions-padded b c ∙ e)))
