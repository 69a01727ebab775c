-- ===== src/Servers/Entry/Markup.antt =====
-- servers/parser.go parseServer: the fields that each of the two kinds of listing sets.
use vintagestory_go.Base.{
  ◌≡◌, refl, Bool, false, Option, none, some, [], Text, text, eq_text, arith,
}
use vintagestory_go.Base.Int.{pos}
use vintagestory_go.Servers.Types.{Server, no_server}
use vintagestory_go.Servers.Tree.{Node, nil, Place, visit, attribute, node_text}
use vintagestory_go.Servers.Tree.Order.{visit_inv}
use vintagestory_go.Servers.Patterns.{players_pattern, mods_pattern, player_limit_pattern}
use vintagestory_go.Servers.Entry.{
  with_players, with_label, with_title, on_span, with_page, with_join, on_a, on_h3, on_abbr,
  with_mods, on_img, on_i, on_div, entry_step, data_of, trimmed, parse_server,
}
use vintagestory_go.Servers.Entry.Laws.{on_element_inv, entry_step_inv, named-eq}

-- A listing has the id of its element, and nothing of the details page.
pub record IsBrief (id : Text) (s : Server) : Type 0 where
  pub same_id : s.id ≡ id
  pub full_description : s.full_description ≡ []
  pub description_html : s.description_html ≡ []
  pub banner_url : s.banner_url ≡ []
  pub operator : s.operator ≡ []
  pub operator_url : s.operator_url ≡ []
  pub mods : s.mods ≡ []

-- A div has no field of the current kind of listing, a li.
pub record IsOld (s : Server) : Type 0 where
  pub url : s.url ≡ []
  pub image_url : s.image_url ≡ []
  pub game_version : s.game_version ≡ []
  pub max_players : s.max_players ≡ pos 0
  pub location : s.location ≡ []
  pub languages : s.languages ≡ []
  pub modified : s.modified ≡ false

with_players-IsBrief :
    (id : Text) (s : Server) (o : Option Text) → IsBrief id s → IsBrief id (with_players s o)
with_players-IsBrief id s none v = v
with_players-IsBrief id s (some d) v = ground (arith, v)

with_players-IsOld : (s : Server) (o : Option Text) → IsOld s → IsOld (with_players s o)
with_players-IsOld s none v = v
with_players-IsOld s (some d) v = ground (arith, v)

with_mods-IsBrief :
    (id : Text) (s : Server) (o : Option Text) → IsBrief id s → IsBrief id (with_mods s o)
with_mods-IsBrief id s none v = v
with_mods-IsBrief id s (some d) v = ground (arith, v)

with_mods-IsOld : (s : Server) (o : Option Text) → IsOld s → IsOld (with_mods s o)
with_mods-IsOld s none v = v
with_mods-IsOld s (some d) v = ground (arith, v)

with_label-IsBrief :
    (id : Text) (s : Server) (label : Text) (o : Option (Text × Text))
    → IsBrief id s
    → IsBrief id (with_label s label o)
with_label-IsBrief id s label none v = ground (arith, v)
with_label-IsBrief id s label (some (d, m)) v = ground (arith, v)

with_title-IsBrief :
    (id : Text) (s : Server) (n : Node) (tag : Text)
    → IsBrief id s
    → IsBrief id (with_title s n tag)
unfolding with_title
with_title-IsBrief id s n tag v = ground (arith, v)

on_span-IsBrief :
    (id : Text) (current : Bool) (s : Server) (p : Place)
    → IsBrief id s
    → IsBrief id (on_span current s p)
unfolding on_span
on_span-IsBrief id current s p v =
    let label = node_text p.node in
    let found = player_limit_pattern label in
    let tag = attribute p.node (text "title") in
    ground (
      arith,
      v,
      with_label-IsBrief id s label found v,
      with_title-IsBrief id s p.node tag v,
      with_title-IsBrief id (with_label s label found) p.node tag
          (with_label-IsBrief id s label found v),
    )

with_page-IsBrief :
    (id : Text) (current : Bool) (s : Server) (href : Text)
    → IsBrief id s
    → IsBrief id (with_page current s href)
unfolding with_page
with_page-IsBrief id current s href v = ground (arith, v)

on_a-IsBrief :
    (id : Text) (current : Bool) (s : Server) (p : Place)
    → IsBrief id s
    → IsBrief id (on_a current s p)
unfolding on_a with_join
on_a-IsBrief id current s p v =
    ground (arith, with_page-IsBrief id current s (attribute p.node (text "href")) v)

on_abbr-IsBrief : (id : Text) (s : Server) (p : Place) → IsBrief id s → IsBrief id (on_abbr s p)
unfolding on_abbr
on_abbr-IsBrief id s p v = ground (arith, v)

on_abbr-IsOld : (s : Server) (p : Place) → IsOld s → IsOld (on_abbr s p)
unfolding on_abbr
on_abbr-IsOld s p v = ground (arith, v)

on_rest-IsBrief :
    (id : Text) (current : Bool) (s : Server) (p : Place)
    → IsBrief id s
    → IsBrief id (on_h3 current s p)
      × IsBrief id (on_i current s p)
      × IsBrief id (on_div current s p)
unfolding on_h3 on_i on_div
on_rest-IsBrief id current s p v = (ground (arith, v), ground (arith, v), ground (arith, v))

on_img-IsBrief :
    (id : Text) (current : Bool) (s : Server) (p : Place)
    → IsBrief id s
    → IsBrief id (on_img current s p)
unfolding on_img
on_img-IsBrief id current s p v =
    with_mods-IsBrief id _ (mods_pattern (attribute p.node (text "title"))) (ground (arith, v))

on_rest-IsOld :
    (s : Server) (p : Place) → IsOld s → IsOld (on_a false s p) × IsOld (on_div false s p)
unfolding on_a with_page with_join on_div
on_rest-IsOld s p v = (ground (arith, v), ground (arith, v))

entry_step-IsBrief :
    (id : Text) (current : Bool) (s : Server) (p : Place)
    → IsBrief id s
    → IsBrief id (entry_step current s p)
entry_step-IsBrief id current s p v =
    let (h3, i, div) = on_rest-IsBrief id current s p v in
    entry_step_inv (IsBrief id) current s p v (λ name.
      on_element_inv (IsBrief id) current s p name v
        (with_players-IsBrief id s (players_pattern (node_text p.node)) v)
        (on_span-IsBrief id current s p v) (on_a-IsBrief id current s p v) h3
        (on_abbr-IsBrief id s p v) (on_img-IsBrief id current s p v) i div)

entry_step-IsOld : (s : Server) (p : Place) → IsOld s → IsOld (entry_step false s p)
unfolding on_span on_h3 on_i on_img
entry_step-IsOld s p v =
    let (a, div) = on_rest-IsOld s p v in
    entry_step_inv IsOld false s p v (λ name.
      on_element_inv IsOld false s p name v
        (with_players-IsOld s (players_pattern (node_text p.node)) v) v a v (on_abbr-IsOld s p v)
        (with_mods-IsOld s (mods_pattern (attribute p.node (text "title"))) v) v div)

trimmed-IsBrief : (id : Text) (s : Server) → IsBrief id s → IsBrief id (trimmed s)
unfolding trimmed
trimmed-IsBrief id s v = ground (arith, v)

trimmed-IsOld : (s : Server) → IsOld s → IsOld (trimmed s)
unfolding trimmed
trimmed-IsOld s v = ground (arith, v)

pub parse_server-IsBrief :
    (n : Node) (s : Server) → parse_server n ≡ some s → IsBrief (attribute n (text "data-sid")) s
unfolding parse_server
parse_server-IsBrief n s h =
    let id = attribute n (text "data-sid") in
    let current = eq_text (data_of n) (text "li") in
    let start = record no_server { id = id } in
    let read = visit (entry_step current) none nil n start in
    let v =
      visit_inv (IsBrief id) (entry_step current) (entry_step-IsBrief id current) none nil n start
        (record {
          same_id = refl;
          full_description = refl;
          description_html = refl;
          banner_url = refl;
          operator = refl;
          operator_url = refl;
          mods = refl;
        }) in
    rw (← ((named-eq (trimmed read) s h).0)) (trimmed-IsBrief id read v)

pub parse_server-IsOld :
    (n : Node) (s : Server)
    → eq_text (data_of n) (text "li") ≡ false
    → parse_server n ≡ some s
    → IsOld s
unfolding parse_server
parse_server-IsOld n s k h =
    let start = record no_server { id = attribute n (text "data-sid") } in
    let read = visit (entry_step false) none nil n start in
    let v = visit_inv IsOld (entry_step false) entry_step-IsOld none nil n start (record {
      url = refl;
      image_url = refl;
      game_version = refl;
      max_players = refl;
      location = refl;
      languages = refl;
      modified = refl;
    }) in
    rw (← ((named-eq (trimmed read) s (rw k at h)).0)) (trimmed-IsOld read v)
