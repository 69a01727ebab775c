-- ===== src/Servers/Detail/Laws.antt =====
-- servers/parser.go parseServerDetail: what holds of the details of a server.
use vintagestory_go.Base.{
  ◌≡◌, ◌⊎◌, inl, inr, refl, true, false, Option, none, some, List, [], ◌∷◌, ◌++◌, All, length, Text,
  text, is_empty, Bool-cases, arith,
}
use vintagestory_go.Base.Int.{pos}
use vintagestory_go.Base.Strings.{has_prefix}
use vintagestory_go.Base.Strings.Numerals.{InRange}
use vintagestory_go.Servers.Types.{Mod, Server, no_server}
use vintagestory_go.Servers.Tree.{
  Node, text_node, element, other_node, nil, Place, visit, attribute, has_class, node_text,
}
use vintagestory_go.Servers.Tree.Order.{visit_inv}
use vintagestory_go.Servers.Patterns.{player_limit_pattern}
use vintagestory_go.Servers.Patterns.Numbers.{player_limit_pattern-IsNumber}
use vintagestory_go.Servers.Entry.{join_scheme, number, trimmed}
use vintagestory_go.Servers.Entry.Laws.{either_way, named-eq, trim_space_empty}
use vintagestory_go.Servers.Detail.{
  parse_mod, detail_value, on_h1, on_img, with_link, with_mod, on_a, with_limit, with_value,
  with_language, on_span, on_div, on_element, detail_node, detail_step, parse_server_detail,
}
use vintagestory_go.Base.Strings.Splits.{Lacks}
use vintagestory_go.Servers.Detail.Mods.{parse_mod-IsSplit}

-- A version has no @, and a mod with a version has a name.
abbrev pub IsVersioned : Mod → Type 0
IsVersioned m = ((m.version ≡ []) ⊎ (is_empty m.name ≡ false)) × Lacks b'@' m.version

-- What holds of the details of a server.
pub record IsDetailed (s : Server) : Type 0 where
  pub players : InRange s.players
  pub max_players : InRange s.max_players
  pub joinable : (s.joinable ≡ true) ⊎ (s.address ≡ [])
  pub operator : (s.operator_url ≡ []) ⊎ (has_prefix s.operator_url (text "/u/") ≡ true)
  pub mods : All IsVersioned s.mods

parse_mod-IsVersioned : (href label : Text) → IsVersioned (parse_mod href label)
parse_mod-IsVersioned href label = elim (parse_mod-IsSplit href label) [
  | inl (n, v) ↦ (inl v, rw v tt)
  | inr (w, n, v) ↦ (inr n, v)
]

All-append_one {κ} :
    {A : Type 0} (P : A → Type κ) (xs : List A) (x : A) → All P xs → P x → All P (xs ++ x ∷ [])
All-append_one P [] x h k = (k, tt)
All-append_one P (y ∷ ys) x h k = (h.0, All-append_one P ys x h.1 k)

with_link-IsDetailed :
    (s : Server) (n : Node) (href : Text) → IsDetailed s → IsDetailed (with_link s n href)
unfolding with_link
with_link-IsDetailed s n href v = elim (Bool-cases (has_prefix href join_scheme)) [
  | inl e ↦ rw e (record {
    players = v.players;
    max_players = v.max_players;
    joinable = inl refl;
    operator = v.operator;
    mods = v.mods;
  })
  | inr e ↦ elim (Bool-cases (has_prefix href (text "/u/"))) [
    | inl k ↦
        rw (e, k)
          (record {
            players = v.players;
            max_players = v.max_players;
            joinable = v.joinable;
            operator = inr k;
            mods = v.mods;
          })
    | inr k ↦ rw (e, k) v
  ]
]

with_mod-IsDetailed :
    (s : Server) (n : Node) (href : Text) → IsDetailed s → IsDetailed (with_mod s n href)
unfolding with_mod
with_mod-IsDetailed s n href v = elim (Bool-cases (has_class n (text "external"))) [
  | inl e ↦ rw e (record {
    players = v.players;
    max_players = v.max_players;
    joinable = v.joinable;
    operator = v.operator;
    mods =
        All-append_one IsVersioned s.mods (parse_mod href (node_text n)) v.mods
          (parse_mod-IsVersioned href (node_text n));
  })
  | inr e ↦ rw e v
]

on_a-IsDetailed : (s : Server) (n : Node) → IsDetailed s → IsDetailed (on_a s n)
unfolding on_a
on_a-IsDetailed s n v =
    let href = attribute n (text "href") in
    with_mod-IsDetailed (with_link s n href) n href (with_link-IsDetailed s n href v)

with_limit-IsDetailed :
    (s : Server) (value : Text)
    → IsDetailed s
    → IsDetailed (with_limit s (player_limit_pattern value))
unfolding with_limit
with_limit-IsDetailed s value v =
    go (player_limit_pattern value) (player_limit_pattern-IsNumber value)
  where
    go :
        (o : Option (Text × Text))
        → ((d m : Text) → o ≡ some (d, m) → InRange (number d) × InRange (number m))
        → IsDetailed (with_limit s o)
    go none h = v
    go (some (d, m)) h =
        let found = h d m refl in
        record {
          players = found.0;
          max_players = found.1;
          joinable = v.joinable;
          operator = v.operator;
          mods = v.mods;
        }

with_value-IsDetailed :
    (s : Server) (label value : Text) → IsDetailed s → IsDetailed (with_value s label value)
unfolding with_value
with_value-IsDetailed s label value v = ground (arith, v, with_limit-IsDetailed s value v)

on_span-IsDetailed : (s : Server) (p : Place) → IsDetailed s → IsDetailed (on_span s p)
unfolding on_span with_language
on_span-IsDetailed s p v =
    let label = node_text p.node in
    let value = detail_value p.following in ground (arith, with_value-IsDetailed s label value v)

module _ (render : Node → Text) where
  on_rest-IsDetailed :
      (s : Server) (n : Node)
      → IsDetailed s
      → IsDetailed (record s { id = attribute n (text "data-sid") })
        × IsDetailed (on_h1 s n)
        × IsDetailed (on_img s n)
        × IsDetailed (on_div render s n)
  unfolding on_h1 on_img on_div
  on_rest-IsDetailed s n v =
      (ground (arith, v), ground (arith, v), ground (arith, v), ground (arith, v))

  on_element-IsDetailed :
      (s : Server) (p : Place) (name : Text)
      → IsDetailed s
      → IsDetailed (on_element render s p name)
  unfolding on_element
  on_element-IsDetailed s p name v =
      let (main, h1, img, div) = on_rest-IsDetailed s p.node v in
      let choose = either_way IsDetailed in
      choose _ _ _ main (
        choose _ _ _ h1 (
          choose _ _ _ img (
            choose _ _ _ div (
              choose _ _ _ (on_a-IsDetailed s p.node v)
                (choose _ _ _ (on_span-IsDetailed s p v) v)))))

  detail_step-IsDetailed :
      (s : Server) (p : Place) → IsDetailed s → IsDetailed (detail_step render s p)
  unfolding detail_step
  detail_step-IsDetailed s p v = go p.node
    where
      go : (n : Node) → IsDetailed (detail_node render s p n)
      go (text_node t) = v
      go (element name attrs cs) = on_element-IsDetailed s p name v
      go (other_node cs) = v

  trimmed-IsDetailed : (s : Server) → IsDetailed s → IsDetailed (trimmed s)
  unfolding trimmed
  trimmed-IsDetailed s v = record {
    players = v.players;
    max_players = v.max_players;
    joinable = elim v.joinable [ inl e ↦ inl e | inr e ↦ inr (rw (e, trim_space_empty) refl) ];
    operator = v.operator;
    mods = v.mods;
  }

  -- The details that parseServerDetail accepts have a name and as many mods as their count says; no
  -- number of players is negative or out of the range of int, there is an address only with the mark
  -- that the server can be joined, the operator's link is empty or to a user's page, and no version
  -- of a mod has an @ or stands without a name.
  pub parse_server_detail-IsDetailed :
      (root : Node) (s : Server)
      → parse_server_detail render root ≡ some s
      → IsDetailed s × (s.mod_count ≡ pos (length s.mods)) × (is_empty s.name ≡ false)
  unfolding parse_server_detail
  parse_server_detail-IsDetailed root s h =
      let read = visit (detail_step render) none nil root no_server in
      let v =
        visit_inv IsDetailed (detail_step render) detail_step-IsDetailed none nil root no_server
          (record {
            players = omega arith;
            max_players = omega arith;
            joinable = inr refl;
            operator = inl refl;
            mods = tt;
          }) in
      let cut = trimmed read in
      let v' = trimmed-IsDetailed read v in
      let full = record cut { mod_count = pos (length cut.mods) } in
      let v'' : IsDetailed full = record {
        players = v'.players;
        max_players = v'.max_players;
        joinable = v'.joinable;
        operator = v'.operator;
        mods = v'.mods;
      } in
      let (same, present) = named-eq full s h in (rw (← same) v'', rw (← same) refl, present)
