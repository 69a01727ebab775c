-- ===== src/Servers/Entry.antt =====
-- servers/parser.go parseServer: one listing of the catalog. The switch over the name of an element
-- is `on_element`, with a function for each case.

pub mod Fields
pub mod Laws
pub mod Markup
use vintagestory_go.Base.{
  Bool, true, not, ◌&&◌, ◌||◌, Option, none, some, [], ◌∷◌, ◌++◌, Text, text, is_empty, eq_text,
  if◌then◌else◌,
}
use vintagestory_go.Base.Int.{ℤ}
use vintagestory_go.Base.Strings.{has_prefix, trim_prefix, trim_space, to_lower, contains, atoi}
use vintagestory_go.Servers.Types.{Server, no_server}
use vintagestory_go.Servers.Tree.{
  Node, text_node, element, other_node, nil, Place, visit, attribute, has_class, parent_has_class,
  node_text,
}
use vintagestory_go.Servers.Patterns.{players_pattern, player_limit_pattern, mods_pattern}

abbrev pub join_scheme : Text
join_scheme = text "vintagestoryjoin://"

-- n, _ = strconv.Atoi(s)
abbrev pub number : Text → ℤ
number s = (atoi s).0

-- case "b"
abbrev pub with_players : Server → Option Text → Server
with_players s none = s
with_players s (some n) = record s { players = number n }

-- case "span", the labels: the players and their limit, or the game version
abbrev pub with_label : Server → Text → Option (Text × Text) → Server
with_label s label (some (n, limit)) = record s { players = number n; max_players = number limit }
with_label s label none =
    if is_empty s.game_version && contains label (text ".")
    then record s { game_version = label }
    else s

abbrev pub location_prefix : Text
location_prefix = text "Physical server location: "

-- case "span", the title: the location or a language
unfoldable pub with_title : Server → Node → Text → Server
with_title s node tag =
    if has_prefix tag location_prefix
    then record s { location = trim_space (trim_prefix tag location_prefix) }
    else if has_class node (text "tag") && not (is_empty tag) && not (contains tag (text ":"))
    then record s { languages = s.languages ++ tag ∷ [] }
    else s

unfoldable pub on_span : Bool → Server → Place → Server
unfolding with_title
on_span current s p =
    let s' =
      if current && parent_has_class p (text "labels")
      then (let label = node_text p.node in with_label s label (player_limit_pattern label))
      else s in
    if current then with_title s' p.node (attribute p.node (text "title")) else s'

-- case "a", the link to a page of the catalog
unfoldable pub with_page : Bool → Server → Text → Server
with_page current s href =
    if current && has_prefix href (text "/s/") then record s { url = href } else s

-- case "a", the link to join: the trimmed text is another one exactly if it had the prefix
unfoldable pub with_join : Bool → Server → Node → Text → Server
with_join current s node href =
    let address = trim_prefix href join_scheme in
    let s' = if not current then record s { name = node_text node } else s in
    if not (eq_text address href) then record s' { address = address; joinable = true } else s

unfoldable pub on_a : Bool → Server → Place → Server
unfolding with_page with_join
on_a current s p =
    let href = attribute p.node (text "href") in
    with_join current (with_page current s href) p.node href

unfoldable pub on_h3 : Bool → Server → Place → Server
on_h3 current s p = if current then record s { name = node_text p.node } else s

-- case "abbr", the inner switch over the title
abbrev pub with_access : Server → Text → Server
with_access s title =
    if eq_text title (text "whitelisted players only")
    then record s { requires_whitelist = true }
    else if eq_text title (text "password protected")
    then record s { password_protected = true }
    else s

unfoldable pub on_abbr : Server → Place → Server
on_abbr s p =
    with_access (if is_empty s.name then record s { name = node_text p.node } else s)
      (to_lower (attribute p.node (text "title")))

abbrev pub with_mods : Server → Option Text → Server
with_mods s none = s
with_mods s (some n) = record s { mod_count = number n }

unfoldable pub on_img : Bool → Server → Place → Server
on_img current s p =
    with_mods
      (if current && is_empty s.image_url
        then record s { image_url = attribute p.node (text "src") }
        else s)
      (mods_pattern (attribute p.node (text "title")))

unfoldable pub on_i : Bool → Server → Place → Server
on_i current s p =
    if current
    then record s {
      modified = s.modified || parent_has_class p (text "modded-marker");
      requires_whitelist = s.requires_whitelist || has_class p.node (text "fa-scroll");
      password_protected = s.password_protected || has_class p.node (text "fa-lock");
    }
    else s

unfoldable pub on_div : Bool → Server → Place → Server
on_div current s p =
    if has_class p.node (text "serverdesc") || current && has_class p.node (text "summary")
    then record s { description = node_text p.node }
    else s

unfoldable pub on_element : Bool → Server → Place → Text → Server
unfolding on_span on_a on_h3 on_abbr on_img on_i on_div
on_element current s p name =
    if eq_text name (text "b")
    then with_players s (players_pattern (node_text p.node))
    else if eq_text name (text "span")
    then on_span current s p
    else if eq_text name (text "a")
    then on_a current s p
    else if eq_text name (text "h3")
    then on_h3 current s p
    else if eq_text name (text "abbr")
    then on_abbr s p
    else if eq_text name (text "img")
    then on_img current s p
    else if eq_text name (text "i")
    then on_i current s p
    else if eq_text name (text "div")
    then on_div current s p
    else s

-- The callback of parseServer: nodes that are no elements are skipped.
abbrev pub entry_node : Bool → Server → Place → Node → Server
entry_node current s p (text_node t) = s
entry_node current s p (element name attrs cs) = on_element current s p name
entry_node current s p (other_node cs) = s

unfoldable pub entry_step : Bool → Server → Place → Server
unfolding on_element
entry_step current s p = entry_node current s p p.node

-- node.Data, of an element
unfoldable pub data_of : Node → Text
data_of (text_node t) = text ""
data_of (element name attrs cs) = name
data_of (other_node cs) = text ""

-- server.Name = strings.TrimSpace(server.Name), and the address
unfoldable pub trimmed : Server → Server
trimmed s = record s { name = trim_space s.name; address = trim_space s.address }

-- server, server.Name != ""
unfoldable pub named : Server → Option Server
named s = if is_empty s.name then none else some s

-- func parseServer: `none` is false. The node itself is a div or a li, whose case does not look at
-- the parent or the siblings.
unfoldable pub parse_server : Node → Option Server
unfolding visit data_of entry_step trimmed named
parse_server node =
    let current = eq_text (data_of node) (text "li") in
    named (
      trimmed (
        visit (entry_step current) none nil node
          (record no_server { id = attribute node (text "data-sid") })))
