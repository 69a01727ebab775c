-- ===== src/Base/Sort.antt =====
-- sort.SliceStable of Go's library, as a stable insertion sort, with what its documentation
-- promises: the result is a rearrangement, ordered, and keeps the order of equal items.
use mathlib.Core.Path.{◌≡◌, refl, ap, ◌∙◌}
use mathlib.Core.Logic.{inl, inr}
use mathlib.Core.Bool.{Bool, true, false}
use mathlib.Core.List.{List, [], ◌∷◌, Perm}
use mathlib.Core.List.Perm
use native.Mathlib.Omega.{arith}
use vintagestory_go.Base.Tests.{if◌then◌else◌, Bool-cases}
use vintagestory_go.Base.Lists.{All, keep}

module _ {ℓ} {A : Type ℓ} (less : A → A → Bool) where
  -- An item goes in front of the first one that is not less.
  unfoldable pub insert_stable : A → List A → List A
  insert_stable x [] = x ∷ []
  insert_stable x (y ∷ ys) = if less y x then y ∷ insert_stable x ys else x ∷ y ∷ ys

  unfoldable pub sort_stable : List A → List A
  unfolding insert_stable
  sort_stable [] = []
  sort_stable (x ∷ xs) = insert_stable x (sort_stable xs)

  -- No later item is less than an earlier one.
  abbrev pub IsOrdered : List A → Type ℓ
  IsOrdered [] = Unit
  IsOrdered (x ∷ xs) = All (λ y. less y x ≡ false) xs × IsOrdered xs

  insert_stable-perm : (x : A) (ys : List A) → Perm (insert_stable x ys) (x ∷ ys)
  unfolding insert_stable
  insert_stable-perm x [] = Perm.rfl
  insert_stable-perm x (y ∷ ys) = elim (Bool-cases (less y x)) [
    | inl h ↦ rw h (Perm.trans (Perm.cons y (insert_stable-perm x ys)) (Perm.swap x y ys))
    | inr h ↦ rw h Perm.rfl
  ]

  pub sort_stable-perm : (xs : List A) → Perm (sort_stable xs) xs
  unfolding sort_stable
  sort_stable-perm [] = Perm.rfl
  sort_stable-perm (x ∷ xs) =
      Perm.trans (insert_stable-perm x (sort_stable xs)) (Perm.cons x (sort_stable-perm xs))

  pub insert_stable-All {κ} :
      (P : A → Type κ) (x : A) (ys : List A) → P x → All P ys → All P (insert_stable x ys)
  unfolding insert_stable
  insert_stable-All P x [] p h = (p, tt)
  insert_stable-All P x (y ∷ ys) p h = elim (Bool-cases (less y x)) [
    | inl e ↦ rw e (h.0, insert_stable-All P x ys p h.1)
    | inr e ↦ rw e (p, h)
  ]

  pub sort_stable-All {κ} : (P : A → Type κ) (xs : List A) → All P xs → All P (sort_stable xs)
  unfolding sort_stable
  sort_stable-All P [] h = tt
  sort_stable-All P (x ∷ xs) h =
      insert_stable-All P x (sort_stable xs) h.0 (sort_stable-All P xs h.1)

  -- Items of a class in which nothing is less than anything keep their order.
  insert_stable-keep :
      (p : A → Bool)
      → ((a b : A) → p a ≡ true → p b ≡ true → less a b ≡ false)
      → (x : A) (ys : List A) → keep p (insert_stable x ys) ≡ keep p (x ∷ ys)
  unfolding insert_stable
  insert_stable-keep p h x [] = refl
  insert_stable-keep p h x (y ∷ ys) = elim (Bool-cases (p x)) [
    | inl e ↦ ground (arith, h y x, insert_stable-keep p h x ys)
    | inr e ↦ ground (arith, insert_stable-keep p h x ys)
  ]

  pub sort_stable-keep :
      (p : A → Bool)
      → ((a b : A) → p a ≡ true → p b ≡ true → less a b ≡ false)
      → (xs : List A) → keep p (sort_stable xs) ≡ keep p xs
  unfolding sort_stable
  sort_stable-keep p h [] = refl
  sort_stable-keep p h (x ∷ xs) =
      insert_stable-keep p h x (sort_stable xs)
      ∙ ap (λ l. if p x then x ∷ l else l) (sort_stable-keep p h xs)

-- What Go asks of `less`: a strict weak order.
pub record IsStrictWeak {ℓ} {A : Type ℓ} (less : A → A → Bool) : Type ℓ where
  pub asym : (a b : A) → less a b ≡ true → less b a ≡ false
  pub negtrans : (a b c : A) → less a b ≡ false → less b c ≡ false → less a c ≡ false

module _ {ℓ} {A : Type ℓ} (less : A → A → Bool) (w : IsStrictWeak less) where
  All-below :
      (x y : A) (ys : List A)
      → less y x ≡ false
      → All (λ z. less z y ≡ false) ys
      → All (λ z. less z x ≡ false) ys
  All-below x y [] h k = tt
  All-below x y (z ∷ ys) h k = (w.negtrans z y x k.0 h, All-below x y ys h k.1)

  insert_stable-IsOrdered :
      (x : A) (ys : List A) → IsOrdered less ys → IsOrdered less (insert_stable less x ys)
  unfolding insert_stable
  insert_stable-IsOrdered x [] o = (tt, tt)
  insert_stable-IsOrdered x (y ∷ ys) o = elim (Bool-cases (less y x)) [
    | inl h ↦ rw h (
      insert_stable-All less (λ z. less z y ≡ false) x ys (w.asym y x h) o.0,
      insert_stable-IsOrdered x ys o.1,
    )
    | inr h ↦ rw h ((h, All-below x y ys h o.0), o)
  ]

  pub sort_stable-IsOrdered : (xs : List A) → IsOrdered less (sort_stable less xs)
  unfolding sort_stable
  sort_stable-IsOrdered [] = tt
  sort_stable-IsOrdered (x ∷ xs) =
      insert_stable-IsOrdered x (sort_stable less xs) (sort_stable-IsOrdered xs)

-- Where the order tells apart any two items of a list, its sort is strict.
module _ {ℓ} {A : Type ℓ} (less : A → A → Bool) (w : IsStrictWeak less) (apart : A → A → Bool)
    (total : (a b : A) → apart a b ≡ true → less a b ≡ false → less b a ≡ true) where
  abbrev pub IsApart : List A → Type ℓ
  IsApart [] = Unit
  IsApart (x ∷ xs) = All (λ y. apart y x ≡ true) xs × IsApart xs

  -- Each item is less than every later one.
  abbrev pub IsStrict : List A → Type ℓ
  IsStrict [] = Unit
  IsStrict (x ∷ xs) = All (λ y. less x y ≡ true) xs × IsStrict xs

  All-above :
      (x y : A) (ys : List A)
      → less x y ≡ true
      → All (λ z. less y z ≡ true) ys
      → All (λ z. less x z ≡ true) ys
  All-above x y [] h k = tt
  All-above x y (z ∷ zs) h k = (
    elim (Bool-cases (less x z)) [
      | inl e ↦ e
      | inr e ↦ absurd (let f = w.negtrans x z y e (w.asym y z k.0) in ground (arith, f, h))
    ],
    All-above x y zs h k.1,
  )

  insert_stable-IsStrict :
      (x : A) (ys : List A)
      → All (λ y. apart y x ≡ true) ys
      → IsStrict ys
      → IsStrict (insert_stable less x ys)
  unfolding insert_stable
  insert_stable-IsStrict x [] n o = (tt, tt)
  insert_stable-IsStrict x (y ∷ ys) n o = elim (Bool-cases (less y x)) [
    | inl e ↦ rw e (
      insert_stable-All less (λ z. less y z ≡ true) x ys e o.0,
      insert_stable-IsStrict x ys n.1 o.1,
    )
    | inr e ↦ let first = total y x n.0 e in rw e ((first, All-above x y ys first o.0), o)
  ]

  pub sort_stable-IsStrict : (xs : List A) → IsApart xs → IsStrict (sort_stable less xs)
  unfolding sort_stable
  sort_stable-IsStrict [] d = tt
  sort_stable-IsStrict (x ∷ xs) d =
      insert_stable-IsStrict x (sort_stable less xs)
        (sort_stable-All less (λ y. apart y x ≡ true) xs d.0) (sort_stable-IsStrict xs d.1)
