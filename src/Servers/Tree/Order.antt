-- ===== src/Servers/Tree/Order.antt =====
-- servers/parser.go visit: the nodes in document order, and the rule for an invariant.
use vintagestory_go.Base.{◌≡◌, refl, Option, some, List, [], ◌∷◌, ◌++◌}
use vintagestory_go.Servers.Tree.{
  Node, Nodes, text_node, element, other_node, nil, cons, Place, at, visit, visit_all,
}

-- The places of a tree in document order, a node before its children.
unfoldable mutual
  pub places : Option Node → Nodes → Node → List Place
  places parent following (text_node t) = at parent following (text_node t) ∷ []
  places parent following (element name attrs cs) =
      at parent following (element name attrs cs) ∷ places_all (some (element name attrs cs)) cs
  places parent following (other_node cs) =
      at parent following (other_node cs) ∷ places_all (some (other_node cs)) cs

  pub places_all : Option Node → Nodes → List Place
  places_all parent nil = []
  places_all parent (cons n ns) = places parent ns n ++ places_all parent ns

abbrev pub fold : {S : Type 0} → (S → Place → S) → List Place → S → S
fold fn [] s = s
fold fn (p ∷ ps) s = fold fn ps (fn s p)

fold-append :
    {S : Type 0} (fn : S → Place → S) (ps qs : List Place) (s : S)
    → fold fn (ps ++ qs) s ≡ fold fn qs (fold fn ps s)
fold-append fn [] qs s = refl
fold-append fn (p ∷ ps) qs s = fold-append fn ps qs (fn s p)

mutual
  unfolding visit places

  visit-fold_lem :
      {S : Type 0} (fn : S → Place → S) (parent : Option Node) (following : Nodes) (n : Node)
      (s : S)
      → visit fn parent following n s ≡ fold fn (places parent following n) s
  visit-fold_lem fn parent following (text_node t) s = refl
  visit-fold_lem fn parent following (element name attrs cs) s =
      visit_all-fold fn (some (element name attrs cs)) cs
        (fn s (at parent following (element name attrs cs)))
  visit-fold_lem fn parent following (other_node cs) s =
      visit_all-fold fn (some (other_node cs)) cs (fn s (at parent following (other_node cs)))

  visit_all-fold :
      {S : Type 0} (fn : S → Place → S) (parent : Option Node) (ns : Nodes) (s : S)
      → visit_all fn parent ns s ≡ fold fn (places_all parent ns) s
  visit_all-fold fn parent nil s = refl
  visit_all-fold fn parent (cons n ns) s = rw (visit-fold_lem fn parent ns n s) (
      rw (fold-append fn (places parent ns n) (places_all parent ns) s)
        (visit_all-fold fn parent ns (fold fn (places parent ns n) s)))

pub visit-fold :
    {S : Type 0} (fn : S → Place → S) (parent : Option Node) (following : Nodes) (n : Node) (s : S)
    → visit fn parent following n s ≡ fold fn (places parent following n) s
visit-fold fn parent following n s = visit-fold_lem fn parent following n s

fold_inv :
    {S : Type 0} (P : S → Type 0) (fn : S → Place → S)
    → ((s : S) (p : Place) → P s → P (fn s p))
    → (ps : List Place) (s : S) → P s
    → P (fold fn ps s)
fold_inv P fn keeps [] s h = h
fold_inv P fn keeps (p ∷ ps) s h = fold_inv P fn keeps ps (fn s p) (keeps s p h)

-- What each call of the callback keeps, the visit keeps.
pub visit_inv :
    {S : Type 0} (P : S → Type 0) (fn : S → Place → S)
    → ((s : S) (p : Place) → P s → P (fn s p))
    → (parent : Option Node) (following : Nodes) (n : Node) (s : S) → P s
    → P (visit fn parent following n s)
visit_inv P fn keeps parent following n s h =
    rw (visit-fold fn parent following n s) (fold_inv P fn keeps (places parent following n) s h)
