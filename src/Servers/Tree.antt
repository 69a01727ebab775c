-- ===== src/Servers/Tree.antt =====
-- servers/parser.go: the nodes of a page, visit, attribute, hasClass and nodeText. A html.Node is
-- its type, its name and attributes if it is an element, and its children; the pointers to the
-- parent and to the next sibling are what visit hands on with the node.
pub mod Order
use vintagestory_go.Base.{
  Bool, false, Option, none, some, List, [], ◌∷◌, ◌++◌, any, Text, text, eq_text, if◌then◌else◌,
}
use vintagestory_go.Base.Strings.{fields, join}

mutual
  pub data Node : Type 0 where
    text_node : Text → Node
    element : (name : Text) (attributes : List (Text × Text)) (children : Nodes) → Node
    other_node : (children : Nodes) → Node

  pub data Nodes : Type 0 where
    nil : Nodes
    cons : Node → Nodes → Nodes

-- A node as the callback of visit meets it: with its parent and the siblings that follow it.
pub record Place : Type 0 where
  pub node : Node
  pub parent : Option Node
  pub following : Nodes

abbrev pub at : Option Node → Nodes → Node → Place
at parent following node = record { node = node; parent = parent; following = following }

-- func visit, for a callback that changes a state
unfoldable mutual
  pub visit : {S : Type 0} → (S → Place → S) → Option Node → Nodes → Node → S → S
  visit fn parent following (text_node t) s = fn s (at parent following (text_node t))
  visit fn parent following (element name attrs cs) s =
      visit_all fn (some (element name attrs cs)) cs
        (fn s (at parent following (element name attrs cs)))
  visit fn parent following (other_node cs) s =
      visit_all fn (some (other_node cs)) cs (fn s (at parent following (other_node cs)))

  pub visit_all : {S : Type 0} → (S → Place → S) → Option Node → Nodes → S → S
  visit_all fn parent nil s = s
  visit_all fn parent (cons n ns) s = visit_all fn parent ns (visit fn parent ns n s)

-- func attribute
unfoldable pub find_attribute : List (Text × Text) → Text → Text
find_attribute [] key = text ""
find_attribute ((k, v) ∷ attrs) key =
    let rest = find_attribute attrs key in if eq_text k key then v else rest

unfoldable pub attribute : Node → Text → Text
unfolding find_attribute
attribute (text_node t) key = text ""
attribute (element name attrs cs) key = find_attribute attrs key
attribute (other_node cs) key = text ""

-- func hasClass
unfoldable pub has_class : Node → Text → Bool
unfolding attribute
has_class node class = any (λ value. eq_text value class) (fields (attribute node (text "class")))

-- current.Parent != nil && hasClass(current.Parent, class)
unfoldable pub parent_has_class : Place → Text → Bool
unfolding has_class
parent_has_class p class = elim p.parent [ none ↦ false | some n ↦ has_class n class ]

add_text : List Text → Place → List Text
add_text values p = elim p.node [
  | text_node t ↦ values ++ t ∷ []
  | element name attrs cs ↦ values
  | other_node cs ↦ values
]

-- func nodeText
unfoldable pub node_text : Node → Text
unfolding visit add_text
node_text node = join (fields (join (visit add_text none nil node []) (text " "))) (text " ")
