-- ===== src/Servers/Tests.antt =====
-- Runs of package servers: the catalog and the page of the package's own tests.
mod Calls
use vintagestory_go.Base.{
  ℕ, ◌≡◌, refl, inl, true, false, none, some, List, [], ◌∷◌, ◌++◌, Text, text, eq_text, All, arith,
}
use vintagestory_go.Base.Int.{pos}
use vintagestory_go.Base.Strings.{
  trim_space, to_lower, trim_prefix, contains, has_prefix, fields, join, is_digit, atoi, split,
}
use vintagestory_go.Base.Sort.{sort_stable}
use vintagestory_go.Vshttp.Errors.{nil}
use vintagestory_go.Vshttp.Request.{Url, url_text}
use vintagestory_go.Vshttp.Json.{Result, ok}
use vintagestory_go.Servers.Types.{Server, no_server}
use vintagestory_go.Servers.Tree.{
  Node, Nodes, text_node, element, other_node, nil, cons, visit, attribute, has_class,
  parent_has_class, node_text,
}
use vintagestory_go.Servers.Patterns.{players_pattern, player_limit_pattern, mods_pattern}
use vintagestory_go.Servers.Entry.{entry_step, data_of, trimmed, named, parse_server}
use vintagestory_go.Servers.Listing.{parse_servers}
use vintagestory_go.Servers.Listing.Laws.{IsPage, parse_servers-IsPage}
use vintagestory_go.Servers.Detail.{parse_mod, detail_value, detail_step, parse_server_detail}
use vintagestory_go.Servers.Detail.Mods.{parse_mod_parts}
use vintagestory_go.Servers.Location.{
  escape, path_escape, is_segment_byte, is_path_byte, join_path, url_string, detail_url,
}
use vintagestory_go.Servers.Location.Pages.{IsElement, page_url, detail_url-escape}

-- What the parser computes with.
reading : Unit {0}
unfolding trim_space to_lower trim_prefix contains has_prefix fields join is_digit atoi sort_stable
    visit attribute has_class parent_has_class node_text players_pattern player_limit_pattern
    mods_pattern entry_step data_of trimmed named parse_server parse_servers parse_mod detail_value
    detail_step parse_server_detail eq_text
reading = tt

abbrev words : Text → Nodes
words t = cons (text_node t) nil

abbrev link : Text → Text → Node
link href label = element (text "a") ((text "href", href) ∷ []) (words label)

-- <div class="server"><b>N players</b><a href="vintagestoryjoin://...">Name</a></div>
abbrev old_entry : Text → Text → Text → Node
old_entry players address name = element (text "div") ((text "class", text "server") ∷ []) (
    cons (element (text "b") [] (words players))
      (cons (link (text "vintagestoryjoin://" ++ address) name) nil))

-- The current kind of listing, with the players and the game version as labels.
abbrev new_entry : Node
new_entry =
    element (text "li")
      ((text "class", text "section featured") ∷ (text "data-sid", text "42") ∷ [])
      (cons
        (element (text "a") ((text "class", text "info") ∷ (text "href", text "/s/42") ∷ []) (
          cons
            (element (text "div") ((text "class", text "labels") ∷ []) (
              cons (element (text "span") [] (words (text " 17 / 40")))
                (cons (element (text "span") [] (words (text "1.22.7"))) nil)))
            (cons (element (text "h3") [] (words (text "Current & Friends"))) nil)))
        (cons
          (element (text "a") ((text "href", text "vintagestoryjoin://current.example") ∷ [])
            (cons (element (text "i") ((text "class", text "fa-solid fa-lock") ∷ []) nil) nil))
          nil))

abbrev page : Node
page = other_node (
    cons (old_entry (text "2 players") (text "one.test") (text "One"))
      (cons new_entry (cons (old_entry (text "17 players") (text "two.test") (text " Two ")) nil)))

abbrev old_server : Text → Text → ℕ → Server
old_server name address players = record no_server {
  name = name;
  address = address;
  players = pos players;
  joinable = true;
}

abbrev new_server : Server
new_server = record no_server {
  id = text "42";
  url = text "/s/42";
  name = text "Current & Friends";
  address = text "current.example";
  game_version = text "1.22.7";
  players = pos 17;
  max_players = pos 40;
  password_protected = true;
  joinable = true;
}

abbrev servers : List Server
servers =
    new_server
    ∷ old_server (text "Two") (text "two.test") 17
    ∷ old_server (text "One") (text "one.test") 2
    ∷ []

catalog_run : parse_servers page ≡ servers
unfolding reading
catalog_run = refl

parse_servers-IsPage_example : IsPage page (parse_servers page)
parse_servers-IsPage_example = parse_servers-IsPage page

old_run :
    parse_server (old_entry (text "2 players") (text "one.test") (text "One"))
    ≡ some (old_server (text "One") (text "one.test") 2)
unfolding reading
old_run = refl

old_div :
    eq_text (data_of (old_entry (text "2 players") (text "one.test") (text "One"))) (text "li")
    ≡ false
unfolding reading
old_div = refl

-- A player count that overflows is cut to the largest int.
overflow_run :
    parse_server (old_entry (text "99999999999999999999 players") (text "one.test") (text "One"))
    ≡ some (old_server (text "One") (text "one.test") 9223372036854775807)
unfolding reading
overflow_run = refl

parse_mod_parts_example :
    parse_mod (text "/m") (text "a@b@1.0")
    ≡ record { name = text "a@b"; version = text "1.0"; url = text "/m" }
parse_mod_parts_example =
    parse_mod_parts (text "/m") (text "a@b") (text "1.0") refl (refl, (refl, (refl, tt)))

-- The URLs of a site at https://servers.vintagestory.at/.
abbrev site : Text → Url
site path = record {
  scheme = text "https";
  user = none;
  host = text "servers.vintagestory.at";
  path = path;
  raw_query = text "";
  fragment = text "";
}

abbrev parse_site : Text → Result Url
parse_site s = ok (site (text "/"))

id_42-IsElement : IsElement (text "42")
id_42-IsElement = record {
  given = λ e. ground (arith, e);
  not_here = λ e. ground (arith, e);
  not_up = λ e. ground (arith, e);
}

id_42_segment : All (λ c. is_segment_byte c ≡ true) (text "42")
unfolding is_segment_byte
id_42_segment = (refl, (refl, tt))

id_space-IsElement : IsElement (text "a b")
id_space-IsElement = record {
  given = λ e. ground (arith, e);
  not_here = λ e. ground (arith, e);
  not_up = λ e. ground (arith, e);
}

detail_url-escape_example :
    detail_url parse_site (text "https://servers.vintagestory.at/") (text "a b")
    ≡ ok (page_url (site (text "/")) (text "/s/" ++ escape is_path_byte (path_escape (text "a b"))))
detail_url-escape_example =
    detail_url-escape parse_site (text "https://servers.vintagestory.at/") (text "a b")
      (site (text "/")) refl (inl refl) id_space-IsElement

-- What the address of a page computes with.
addressing : Unit {0}
unfolding escape path_escape is_segment_byte is_path_byte join_path split join url_string url_text
    detail_url eq_text
addressing = tt

escaped_twice :
    detail_url parse_site (text "https://servers.vintagestory.at/") (text "a b")
    ≡ ok (text "https://servers.vintagestory.at/s/a%2520b")
unfolding addressing
escaped_twice = refl

-- The id of a directory leads out of /s/, to the catalog.
led_out :
    detail_url parse_site (text "https://servers.vintagestory.at/") (text "..")
    ≡ ok (text "https://servers.vintagestory.at/")
unfolding addressing
led_out = refl

below_a_path :
    detail_url (λ s. ok (site (text "/a/../list"))) (text "") (text "7")
    ≡ ok (text "https://servers.vintagestory.at/list/s/7")
unfolding addressing
below_a_path = refl

detail_page : Node
detail_page = other_node (
    cons (element (text "span") [] (words (text "Players:"))) (
      cons (text_node (text " ")) (
        cons (element (text "span") [] (words (text "12 / 40"))) (
          cons
            (element (text "main") ((text "data-sid", text "42") ∷ []) (
              cons (element (text "h1") [] (words (text "Example"))) (
                cons
                  (element (text "a")
                    ((text "class", text "external") ∷ (text "href", text "/m/1") ∷ [])
                    (words (text "A mod@1.2.3")))
                  nil)))
            nil))))

abbrev detail_server : Server
detail_server = record no_server {
  id = text "42";
  name = text "Example";
  players = pos 12;
  max_players = pos 40;
  mod_count = pos 1;
  mods = record { name = text "A mod"; version = text "1.2.3"; url = text "/m/1" } ∷ [];
}

detail_run : parse_server_detail (λ n. text "") detail_page ≡ some detail_server
unfolding reading detail_page
detail_run = refl
