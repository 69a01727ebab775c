-- ===== src/Servers/Listing.antt =====
-- servers/parser.go parseServers: the listings of a page of the catalog.
pub mod Laws
use vintagestory_go.Base.{
  Bool, false, not, ◌&&◌, ◌||◌, Option, none, some, List, [], ◌∷◌, ◌++◌, text, is_empty, eq_text,
  if◌then◌else◌,
}
use vintagestory_go.Base.Int.{ltb_ℤ}
use vintagestory_go.Base.Sort.{sort_stable}
use vintagestory_go.Servers.Types.{Server}
use vintagestory_go.Servers.Tree.{
  Node, text_node, element, other_node, nil, Place, visit, attribute, has_class,
}
use vintagestory_go.Servers.Entry.{parse_server}

-- The elements that are listings: legacyListing || currentListing.
unfoldable pub is_listing : Node → Bool
is_listing (text_node t) = false
is_listing (element name attrs cs) =
    let node = element name attrs cs in
    (eq_text name (text "div") && has_class node (text "server"))
    || (eq_text name (text "li")
        && has_class node (text "section")
        && not (is_empty (attribute node (text "data-sid"))))
is_listing (other_node cs) = false

abbrev pub append_some : List Server → Option Server → List Server
append_some servers none = servers
append_some servers (some s) = servers ++ s ∷ []

-- The callback of parseServers.
unfoldable pub listing_step : List Server → Place → List Server
unfolding is_listing
listing_step servers p =
    if is_listing p.node then append_some servers (parse_server p.node) else servers

-- The `less` of sort.SliceStable: more players come first.
abbrev pub has_more : Server → Server → Bool
has_more a b = ltb_ℤ b.players a.players

-- func parseServers
unfoldable pub parse_servers : Node → List Server
unfolding listing_step
parse_servers root = sort_stable has_more (visit listing_step none nil root [])
