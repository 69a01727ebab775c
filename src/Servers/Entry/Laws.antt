-- ===== src/Servers/Entry/Laws.antt =====
-- servers/parser.go parseServer: what holds of every listing.
use vintagestory_go.Base.{
  ◌≡◌, inl, inr, refl, Bool, true, false, none, some, [], Text, text, is_empty, eq_text,
  if◌then◌else◌, Bool-cases, arith,
}
use vintagestory_go.Base.Strings.{trim_space}
use vintagestory_go.Servers.Types.{Server, no_server}
use vintagestory_go.Servers.Tree.{
  Node, text_node, element, other_node, nil, Place, visit, attribute, parent_has_class, node_text,
}
use vintagestory_go.Servers.Tree.Order.{visit_inv}
use vintagestory_go.Servers.Patterns.{players_pattern}
use vintagestory_go.Servers.Entry.{
  with_players, on_span, with_page, on_a, on_h3, on_abbr, on_img, on_i, on_div, on_element,
  entry_node, entry_step, data_of, trimmed, named, parse_server,
}
use vintagestory_go.Servers.Entry.Fields.{
  IsPlausible, with_players-IsPlausible, with_mods-IsPlausible, with_label-IsPlausible,
  with_title-IsPlausible, with_page-IsPlausible, with_join-IsPlausible,
}

on_span-IsPlausible :
    (current : Bool) (s : Server) (p : Place) → IsPlausible s → IsPlausible (on_span current s p)
unfolding on_span
on_span-IsPlausible false s p v = v
on_span-IsPlausible true s p v =
    let label = node_text p.node in
    elim (Bool-cases (parent_has_class p (text "labels"))) [
      | inl e ↦ rw e (
          with_title-IsPlausible _ p.node (attribute p.node (text "title"))
            (with_label-IsPlausible s label v))
      | inr e ↦ rw e (with_title-IsPlausible s p.node (attribute p.node (text "title")) v)
    ]

on_a-IsPlausible :
    (current : Bool) (s : Server) (p : Place) → IsPlausible s → IsPlausible (on_a current s p)
unfolding on_a
on_a-IsPlausible current s p v =
    let href = attribute p.node (text "href") in
    with_join-IsPlausible current (with_page current s href) p.node href
      (with_page-IsPlausible current s href v)

on_h3-IsPlausible :
    (current : Bool) (s : Server) (p : Place) → IsPlausible s → IsPlausible (on_h3 current s p)
unfolding on_h3
on_h3-IsPlausible current s p v = ground (arith, v)

on_abbr-IsPlausible : (s : Server) (p : Place) → IsPlausible s → IsPlausible (on_abbr s p)
unfolding on_abbr
on_abbr-IsPlausible s p v = ground (arith, v)

on_img-IsPlausible :
    (current : Bool) (s : Server) (p : Place) → IsPlausible s → IsPlausible (on_img current s p)
unfolding on_img
on_img-IsPlausible current s p v =
    with_mods-IsPlausible _ (attribute p.node (text "title")) (ground (arith, v))

on_i-IsPlausible :
    (current : Bool) (s : Server) (p : Place) → IsPlausible s → IsPlausible (on_i current s p)
unfolding on_i
on_i-IsPlausible current s p v = ground (arith, v)

on_div-IsPlausible :
    (current : Bool) (s : Server) (p : Place) → IsPlausible s → IsPlausible (on_div current s p)
unfolding on_div
on_div-IsPlausible current s p v = ground (arith, v)

pub either_way :
    (P : Server → Type 0) (c : Bool) (a b : Server) → P a → P b → P (if c then a else b)
either_way P true a b p q = p
either_way P false a b p q = q

-- What each case of the switch keeps, the switch keeps.
pub on_element_inv :
    (P : Server → Type 0) (current : Bool) (s : Server) (p : Place) (name : Text)
    → P s
    → P (with_players s (players_pattern (node_text p.node)))
    → P (on_span current s p)
    → P (on_a current s p)
    → P (on_h3 current s p)
    → P (on_abbr s p)
    → P (on_img current s p)
    → P (on_i current s p)
    → P (on_div current s p)
    → P (on_element current s p name)
unfolding on_element
on_element_inv P current s p name v b span a h3 abbr img i div = either_way P _ _ _ b (
    either_way P _ _ _ span (
      either_way P _ _ _ a (
        either_way P _ _ _ h3 (
          either_way P _ _ _ abbr
            (either_way P _ _ _ img (either_way P _ _ _ i (either_way P _ _ _ div v)))))))

pub entry_step_inv :
    (P : Server → Type 0) (current : Bool) (s : Server) (p : Place)
    → P s
    → ((name : Text) → P (on_element current s p name))
    → P (entry_step current s p)
unfolding entry_step
entry_step_inv P current s p v h = go p.node
  where
    go : (n : Node) → P (entry_node current s p n)
    go (text_node t) = v
    go (element name attrs cs) = h name
    go (other_node cs) = v

entry_step-IsPlausible :
    (current : Bool) (s : Server) (p : Place) → IsPlausible s → IsPlausible (entry_step current s p)
entry_step-IsPlausible current s p v = entry_step_inv IsPlausible current s p v (λ name.
    on_element_inv IsPlausible current s p name v (with_players-IsPlausible s (node_text p.node) v)
      (on_span-IsPlausible current s p v) (on_a-IsPlausible current s p v)
      (on_h3-IsPlausible current s p v) (on_abbr-IsPlausible s p v)
      (on_img-IsPlausible current s p v) (on_i-IsPlausible current s p v)
      (on_div-IsPlausible current s p v))

pub trim_space_empty : trim_space [] ≡ []
unfolding trim_space
trim_space_empty = refl

trimmed-IsPlausible : (s : Server) → IsPlausible s → IsPlausible (trimmed s)
unfolding trimmed
trimmed-IsPlausible s v = record {
  players = v.players;
  max_players = v.max_players;
  mod_count = v.mod_count;
  joinable = elim v.joinable [ inl e ↦ inl e | inr e ↦ inr (rw (e, trim_space_empty) refl) ];
  page = v.page;
}

pub named-eq : (s t : Server) → named s ≡ some t → (s ≡ t) × (is_empty t.name ≡ false)
unfolding named
named-eq s t h = elim (Bool-cases (is_empty s.name)) [
  | inl e ↦ absurd (ground (arith, h, e))
  | inr e ↦ let same : s ≡ t = ground (arith, h, e) in (same, rw (← same) e)
]

pub parse_server-IsPlausible :
    (n : Node) (s : Server) → parse_server n ≡ some s → IsPlausible s × (is_empty s.name ≡ false)
unfolding parse_server
parse_server-IsPlausible n s h =
    let current = eq_text (data_of n) (text "li") in
    let start = record no_server { id = attribute n (text "data-sid") } in
    let read = visit (entry_step current) none nil n start in
    let v =
      visit_inv IsPlausible (entry_step current) (entry_step-IsPlausible current) none nil n start
        (record {
          players = omega arith;
          max_players = omega arith;
          mod_count = omega arith;
          joinable = inr refl;
          page = inl refl;
        }) in
    let (same, present) = named-eq (trimmed read) s h in
    (rw (← same) (trimmed-IsPlausible read v), present)
