-- ===== src/Moddb/Tags/Order.antt =====
-- moddb/client.go ListTags: Go walks the map in any order, and sort.Slice is not stable.
use mathlib.Core.Logic.Or
use mathlib.Core.List.{Mem, Perm, mem-cons_self, eq-or-mem_of_mem-cons, not-mem-nil}
use mathlib.Core.List.Perm
use vintagestory_go.Base.{◌≡◌, sym, subst, Bool, true, false, List, [], ◌∷◌, All, arith}
use vintagestory_go.Base.Sort.{IsOrdered, sort_stable-perm}
use vintagestory_go.Moddb.Types.{Mod, Tag}
use vintagestory_go.Moddb.Tags.{count_mods, tag_less, tags_of}
use vintagestory_go.Moddb.Tags.Count.{IsAscending, tags_of-IsAscending}

Tag-IsSet : IsSet Tag
Tag-IsSet = hlevel

Bool-IsSet : IsSet Bool
Bool-IsSet = hlevel

All-Mem :
    (p : Tag → Bool) (b : Bool) (a : Tag) (ts : List Tag)
    → All (λ t. p t ≡ b) ts
    → Mem a ts
    → p a ≡ b
All-Mem p b a [] h m = absurd (not-mem-nil m)
All-Mem p b a (t ∷ ts) h m =
    Or.elim (Bool-IsSet (p a) b) (eq-or-mem_of_mem-cons m)
      (λ e. subst (λ (c : Tag). p c ≡ b) (sym e) (h.0)) (λ n. All-Mem p b a ts h.1 n)

-- The first of an ascending list is the first of any ordered rearrangement.
first_same :
    (x y : Tag) (xs ys : List Tag)
    → IsAscending (x ∷ xs)
    → IsOrdered tag_less (y ∷ ys)
    → Perm (x ∷ xs) (y ∷ ys)
    → x ≡ y
first_same x y xs ys a o p =
    Or.elim (Tag-IsSet x y) (eq-or-mem_of_mem-cons (Perm.subset p x mem-cons_self)) (λ e. e)
      (λ m.
        Or.elim (Tag-IsSet x y) (eq-or-mem_of_mem-cons (Perm.subset (Perm.symm p) y mem-cons_self))
          sym
          (λ n.
            let less = All-Mem (tag_less x) true y xs a.0 n in
            let not_less = All-Mem (λ t. tag_less t y) false x ys o.0 m in
            absurd (ground (arith, less, not_less))))

ordered_unique : (xs ys : List Tag) → IsAscending xs → IsOrdered tag_less ys → Perm xs ys → ys ≡ xs
ordered_unique [] ys a o p = sym (Perm.nil-eq p)
ordered_unique (x ∷ xs) [] a o p = sym (Perm.eq-nil p)
ordered_unique (x ∷ xs) (y ∷ ys) a o p =
    let same = first_same x y xs ys a o p in
    let rest =
      ordered_unique xs ys a.1 o.1
        (Perm.cons_inv {a = x} (subst (λ (t : Tag). Perm (x ∷ xs) (t ∷ ys)) (sym same) p)) in
    cc

-- In whatever order Go walks the map of ListTags, and whichever rearrangement of its tags with no tag
-- before one that sorts below it the unstable sort gives, that is the list of `tags_of`.
pub tags_of_unique :
    (items : List Mod) (walk out : List Tag)
    → Perm (count_mods items []) walk
    → Perm walk out
    → IsOrdered tag_less out
    → out ≡ tags_of items
unfolding tags_of
tags_of_unique items walk out p q o =
    ordered_unique (tags_of items) out (tags_of-IsAscending items []).0 o
      (Perm.trans (sort_stable-perm tag_less (count_mods items [])) (Perm.trans p q))
