-- ===== src/Servers/Detail.antt =====
-- servers/parser.go parseServerDetail and detailValue: the page of one server. What html.Render
-- writes for a node is a parameter.
pub mod Mods
pub mod Laws
use vintagestory_go.Base.{
  ℕ, suc, ltb, ◌==◌, true, not, ◌&&◌, Option, none, some, [], ◌∷◌, ◌++◌, length, take, drop, Text,
  text, is_empty, eq_text, if◌then◌else◌,
}
use vintagestory_go.Base.Int.{pos}
use vintagestory_go.Base.Strings.{has_prefix, trim_prefix}
use vintagestory_go.Servers.Types.{Mod, Server, no_server}
use vintagestory_go.Servers.Tree.{
  Node, Nodes, text_node, element, other_node, nil, cons, Place, visit, attribute, has_class,
  node_text,
}
use vintagestory_go.Servers.Patterns.{player_limit_pattern}
use vintagestory_go.Servers.Entry.{join_scheme, number, trimmed, named}

-- strings.LastIndex(s, sep) for a separator of one byte; `none` is -1.
unfoldable pub last_index : Text → ℕ → Option ℕ
last_index [] sep = none
last_index (c ∷ s) sep = elim (last_index s sep) [
  | some i ↦ some (suc i)
  | none ↦ if c == sep then some 0 else none
]

-- if at := strings.LastIndex(text, "@"); at > 0
abbrev pub mod_at : Text → Text → Option ℕ → Mod
mod_at href label none = record { name = label; version = text ""; url = href }
mod_at href label (some i) =
    if ltb 0 i
    then record { name = take i label; version = drop (suc i) label; url = href }
    else record { name = label; version = text ""; url = href }

unfoldable pub parse_mod : Text → Text → Mod
unfolding last_index
parse_mod href label = mod_at href label (last_index label b'@')

-- func detailValue
unfoldable pub detail_value : Nodes → Text
detail_value nil = text ""
detail_value (cons (text_node t) ns) = detail_value ns
detail_value (cons (element name attrs cs) ns) = node_text (element name attrs cs)
detail_value (cons (other_node cs) ns) = detail_value ns

on_h1 : Server → Node → Server
on_h1 s n = if is_empty s.name then record s { name = node_text n } else s

on_img : Server → Node → Server
on_img s n =
    let alt = attribute n (text "alt") in
    if eq_text alt (text "Thumbnail")
    then record s { image_url = attribute n (text "src") }
    else if eq_text alt (text "Banner")
    then record s { banner_url = attribute n (text "src") }
    else s

-- case "a", the switch over the link
with_link : Server → Node → Text → Server
with_link s n href =
    if has_prefix href join_scheme
    then record s { address = trim_prefix href join_scheme; joinable = true }
    else if has_prefix href (text "/u/")
    then record s { operator_url = href; operator = node_text n }
    else s

with_mod : Server → Node → Text → Server
with_mod s n href =
    if has_class n (text "external")
    then record s { mods = s.mods ++ parse_mod href (node_text n) ∷ [] }
    else s

on_a : Server → Node → Server
unfolding with_link with_mod
on_a s n = let href = attribute n (text "href") in with_mod (with_link s n href) n href

with_limit : Server → Option (Text × Text) → Server
with_limit s none = s
with_limit s (some (n, limit)) = record s { players = number n; max_players = number limit }

with_value : Server → Text → Text → Server
unfolding with_limit
with_value s label value =
    if is_empty value
    then s
    else if eq_text label (text "Players:")
    then with_limit s (player_limit_pattern value)
    else if eq_text label (text "Game Version:")
    then record s { game_version = value }
    else if eq_text label (text "Location:")
    then record s { location = value }
    else s

with_language : Server → Node → Server
with_language s n =
    if has_class n (text "tag") && not (is_empty (attribute n (text "title")))
    then record s { languages = s.languages ++ attribute n (text "title") ∷ [] }
    else s

on_span : Server → Place → Server
unfolding with_value with_language
on_span s p = with_language (with_value s (node_text p.node) (detail_value p.following)) p.node

module _ (render : Node → Text) where
  -- html.Render of each child into one buffer
  render_all : Nodes → Text
  render_all nil = []
  render_all (cons n ns) = render n ++ render_all ns

  children_text : Node → Text
  unfolding render_all
  children_text (text_node t) = []
  children_text (element name attrs cs) = render_all cs
  children_text (other_node cs) = render_all cs

  on_div : Server → Node → Server
  unfolding children_text
  on_div s n =
      if has_class n (text "text-section")
      then record s { full_description = node_text n; description_html = children_text n }
      else s

  unfoldable pub on_element : Server → Place → Text → Server
  unfolding on_h1 on_img on_div on_a on_span
  on_element s p name =
      if eq_text name (text "main")
      then record s { id = attribute p.node (text "data-sid") }
      else if eq_text name (text "h1")
      then on_h1 s p.node
      else if eq_text name (text "img")
      then on_img s p.node
      else if eq_text name (text "div")
      then on_div s p.node
      else if eq_text name (text "a")
      then on_a s p.node
      else if eq_text name (text "span")
      then on_span s p
      else s

  detail_node : Server → Place → Node → Server
  detail_node s p (text_node t) = s
  detail_node s p (element name attrs cs) = on_element s p name
  detail_node s p (other_node cs) = s

  -- The callback of parseServerDetail.
  unfoldable pub detail_step : Server → Place → Server
  unfolding on_element detail_node
  detail_step s p = detail_node s p p.node

  -- func parseServerDetail: `none` is false.
  unfoldable pub parse_server_detail : Node → Option Server
  unfolding detail_step
  parse_server_detail root =
      let read = trimmed (visit detail_step none nil root no_server) in
      named (record read { mod_count = pos (length read.mods) })
