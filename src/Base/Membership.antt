-- ===== src/Base/Membership.antt =====
-- Membership in lists and in sets of texts.
use mathlib.Core.Path.{◌≡◌, refl, ap}
use mathlib.Core.Logic.{◌↔◌, ◌⊎◌, inl, inr}
use mathlib.Core.Bool.{Bool, true, false}
use mathlib.Core.List.{List, [], ◌∷◌, ◌++◌, map}
use native.Mathlib.Omega.{arith}
use vintagestory_go.Base.Tests.{Bool-cases}
use vintagestory_go.Base.Sort.{insert_stable, sort_stable}
use vintagestory_go.Base.Lists.{In, All, keep}
use vintagestory_go.Base.Strings.{Text, eq_text, eq_text_iff, eq_text_refl, member}

module _ {A : Type 0} where
  In-keep_to : (p : A → Bool) (a : A) (xs : List A) → In a (keep p xs) → In a xs × (p a ≡ true)
  In-keep_to p a [] m = absurd m
  In-keep_to p a (x ∷ xs) m = elim (Bool-cases (p x)) [
    | inl h ↦ elim (rw h at m) [
      | inl e ↦ (inl e, rw (← e) h)
      | inr k ↦ let (there, holds) = In-keep_to p a xs k in (inr there, holds)
    ]
    | inr h ↦ let (there, holds) = In-keep_to p a xs (rw h at m) in (inr there, holds)
  ]

  In-keep_from : (p : A → Bool) (a : A) (xs : List A) → In a xs → p a ≡ true → In a (keep p xs)
  In-keep_from p a [] m k = m
  In-keep_from p a (x ∷ xs) (inl e) k = rw (e, k) (inl refl)
  In-keep_from p a (x ∷ xs) (inr m) k = elim (Bool-cases (p x)) [
    | inl h ↦ rw h (inr (In-keep_from p a xs m k))
    | inr h ↦ rw h (In-keep_from p a xs m k)
  ]

  pub In-keep : (p : A → Bool) (a : A) (xs : List A) → In a (keep p xs) ↔ (In a xs × (p a ≡ true))
  In-keep p a xs = (In-keep_to p a xs, λ h. In-keep_from p a xs h.0 h.1)

  pub In-append_left : (a : A) (xs ys : List A) → In a xs → In a (xs ++ ys)
  In-append_left a (x ∷ xs) ys (inl e) = inl e
  In-append_left a (x ∷ xs) ys (inr m) = inr (In-append_left a xs ys m)
  In-append_left a [] ys m = absurd m

  pub In-append_right : (a : A) (xs ys : List A) → In a ys → In a (xs ++ ys)
  In-append_right a [] ys m = m
  In-append_right a (x ∷ xs) ys m = inr (In-append_right a xs ys m)

  pub In-append-cases : (a : A) (xs ys : List A) → In a (xs ++ ys) → In a xs ⊎ In a ys
  In-append-cases a [] ys m = inr m
  In-append-cases a (x ∷ xs) ys (inl e) = inl (inl e)
  In-append-cases a (x ∷ xs) ys (inr m) = elim (In-append-cases a xs ys m) [
    | inl k ↦ inl (inr k)
    | inr k ↦ inr k
  ]

  pub All-In {κ} : (P : A → Type κ) (a : A) (xs : List A) → All P xs → In a xs → P a
  All-In P a [] h m = absurd m
  All-In P a (x ∷ xs) h (inl e) = rw e at (h.0)
  All-In P a (x ∷ xs) h (inr m) = All-In P a xs h.1 m

  pub All-of_In {κ} : (P : A → Type κ) (xs : List A) → ((a : A) → In a xs → P a) → All P xs
  All-of_In P [] h = tt
  All-of_In P (x ∷ xs) h = (h x (inl refl), All-of_In P xs (λ a m. h a (inr m)))

module _ {A B : Type 0} where
  pub In-map : (f : A → B) (b : B) (xs : List A) → In b (map f xs) → (a : A) × In a xs × (f a ≡ b)
  In-map f b [] m = absurd m
  In-map f b (x ∷ xs) (inl e) = (x, inl refl, e)
  In-map f b (x ∷ xs) (inr m) = let (a, there, e) = In-map f b xs m in (a, inr there, e)

  pub In-map_of_In : (f : A → B) (a : A) (xs : List A) → In a xs → In (f a) (map f xs)
  In-map_of_In f a [] m = absurd m
  In-map_of_In f a (x ∷ xs) (inl e) = inl (ap f e)
  In-map_of_In f a (x ∷ xs) (inr m) = inr (In-map_of_In f a xs m)

member→In : (a : Text) (xs : List Text) → member a xs ≡ true → In a xs
member→In a [] h = ground (arith, h)
member→In a (x ∷ xs) h = elim (Bool-cases (eq_text x a)) [
  | inl e ↦ inl ((eq_text_iff x a).0 e)
  | inr e ↦ inr (member→In a xs (rw e at h))
]

In→member : (a : Text) (xs : List Text) → In a xs → member a xs ≡ true
In→member a [] m = absurd m
In→member a (x ∷ xs) (inl e) = rw (e, eq_text_refl a)
In→member a (x ∷ xs) (inr m) = ground (arith, In→member a xs m)

pub member_iff : (a : Text) (xs : List Text) → (member a xs ≡ true) ↔ In a xs
member_iff a xs = (member→In a xs, In→member a xs)

pub not-member_iff : (a : Text) (xs : List Text) → (member a xs ≡ false) ↔ (¬ In a xs)
not-member_iff a xs = (
  λ h m. ground (arith, In→member a xs m, h),
  λ n. elim (Bool-cases (member a xs)) [ inl e ↦ absurd (n (member→In a xs e)) | inr e ↦ e ],
)

module _ {A : Type 0} (less : A → A → Bool) where
  In-insert_stable_to : (a x : A) (ys : List A) → In a (insert_stable less x ys) → (x ≡ a) ⊎ In a ys
  unfolding insert_stable
  In-insert_stable_to a x [] m = m
  In-insert_stable_to a x (y ∷ ys) m = elim (Bool-cases (less y x)) [
    | inl e ↦ elim (rw e at m) [
      | inl k ↦ inr (inl k)
      | inr n ↦ elim (In-insert_stable_to a x ys n) [ inl k ↦ inl k | inr k ↦ inr (inr k) ]
    ]
    | inr e ↦ rw e at m
  ]

  In-insert_stable_from :
      (a x : A) (ys : List A) → (x ≡ a) ⊎ In a ys → In a (insert_stable less x ys)
  unfolding insert_stable
  In-insert_stable_from a x [] m = m
  In-insert_stable_from a x (y ∷ ys) m = elim (Bool-cases (less y x)) [
    | inl e ↦ rw e (elim m [
      | inl k ↦ inr (In-insert_stable_from a x ys (inl k))
      | inr n ↦ elim n [ inl k ↦ inl k | inr k ↦ inr (In-insert_stable_from a x ys (inr k)) ]
    ])
    | inr e ↦ rw e m
  ]

  -- Sorting keeps the members.
  In-sort_stable_to : (a : A) (xs : List A) → In a (sort_stable less xs) → In a xs
  unfolding sort_stable
  In-sort_stable_to a [] m = m
  In-sort_stable_to a (x ∷ xs) m = elim (In-insert_stable_to a x (sort_stable less xs) m) [
    | inl k ↦ inl k
    | inr n ↦ inr (In-sort_stable_to a xs n)
  ]

  In-sort_stable_from : (a : A) (xs : List A) → In a xs → In a (sort_stable less xs)
  unfolding sort_stable
  In-sort_stable_from a [] m = m
  In-sort_stable_from a (x ∷ xs) m =
      In-insert_stable_from a x (sort_stable less xs)
        (elim m [ inl k ↦ inl k | inr n ↦ inr (In-sort_stable_from a xs n) ])

  pub In-sort_stable : (a : A) (xs : List A) → In a (sort_stable less xs) ↔ In a xs
  In-sort_stable a xs = (In-sort_stable_to a xs, In-sort_stable_from a xs)
