-- ===== src/Servers/Listing/Laws.antt =====
-- servers/parser.go parseServers: what the list of a page is.
use mathlib.Core.List.{Perm}
use vintagestory_go.Base.{
  ◌+◌, ◌≡◌, ◌∙◌, sym, refl, ap, Bool, true, false, ◌&&◌, Option, none, some, List, [], ◌∷◌, ◌++◌,
  All, is_empty, keep, leb, if◌then◌else◌, Bool-cases, inl, inr, arith,
}
use vintagestory_go.Base.Int.{ℤ, pos_part, neg_part}
use vintagestory_go.Base.Sort.{
  IsOrdered, IsStrictWeak, sort_stable, sort_stable-perm, sort_stable-All, sort_stable-keep,
  sort_stable-IsOrdered,
}
use vintagestory_go.Servers.Types.{Server}
use vintagestory_go.Servers.Tree.{Node, nil, Place}
use vintagestory_go.Servers.Tree.Order.{places, fold, visit-fold}
use vintagestory_go.Servers.Entry.{parse_server}
use vintagestory_go.Servers.Entry.Fields.{IsPlausible}
use vintagestory_go.Servers.Entry.Laws.{parse_server-IsPlausible}
use vintagestory_go.Servers.Listing.{is_listing, append_some, listing_step, has_more, parse_servers}

abbrev cons_some : Option Server → List Server → List Server
cons_some none servers = servers
cons_some (some s) servers = s ∷ servers

-- The named listings among the places of a page, in document order.
unfoldable pub entries : List Place → List Server
entries [] = []
entries (p ∷ ps) =
    if is_listing p.node then cons_some (parse_server p.node) (entries ps) else entries ps

append_cons :
    (xs : List Server) (s : Server) (ys : List Server) → (xs ++ s ∷ []) ++ ys ≡ xs ++ (s ∷ ys)
append_cons [] s ys = refl
append_cons (x ∷ xs) s ys = ap (◌∷◌ x) (append_cons xs s ys)

append_empty : (xs : List Server) → xs ++ [] ≡ xs
append_empty [] = refl
append_empty (x ∷ xs) = ap (◌∷◌ x) (append_empty xs)

append_some-cons :
    (xs : List Server) (o : Option Server) (ys : List Server)
    → append_some xs o ++ ys ≡ xs ++ cons_some o ys
append_some-cons xs none ys = refl
append_some-cons xs (some s) ys = append_cons xs s ys

fold-entries :
    (ps : List Place) (servers : List Server) → fold listing_step ps servers ≡ servers ++ entries ps
unfolding entries listing_step
fold-entries [] servers = sym (append_empty servers)
fold-entries (p ∷ ps) servers = elim (Bool-cases (is_listing p.node)) [
  | inl e ↦ rw e (
      fold-entries ps (append_some servers (parse_server p.node))
      ∙ append_some-cons servers (parse_server p.node) (entries ps))
  | inr e ↦ rw e (fold-entries ps servers)
]

abbrev pub page_entries : Node → List Server
page_entries root = entries (places none nil root)

-- The list of a page is the sort of its named listings.
parse_servers-entries :
    (root : Node) → parse_servers root ≡ sort_stable has_more (page_entries root)
unfolding parse_servers
parse_servers-entries root =
    ap (sort_stable has_more)
      (visit-fold listing_step none nil root [] ∙ fold-entries (places none nil root) [])

has_more-IsStrictWeak : IsStrictWeak has_more
has_more-IsStrictWeak = record {
  asym = λ a b h. ground (arith, h);
  negtrans = λ a b c h k. ground (arith, h, k);
}

-- The test for the listings with a given number of players.
abbrev pub has_players : ℤ → Server → Bool
has_players z s =
    leb (pos_part s.players + neg_part z) (pos_part z + neg_part s.players)
    && leb (pos_part z + neg_part s.players) (pos_part s.players + neg_part z)

has_players_level :
    (z : ℤ) (a b : Server) → has_players z a ≡ true → has_players z b ≡ true → has_more a b ≡ false
has_players_level z a b h k = ground (arith, h, k)

abbrev IsGood : Server → Type 0
IsGood s = IsPlausible s × (is_empty s.name ≡ false)

cons_some-IsGood :
    (o : Option Server) (servers : List Server)
    → ((s : Server) → o ≡ some s → IsGood s)
    → All IsGood servers
    → All IsGood (cons_some o servers)
cons_some-IsGood none servers h k = k
cons_some-IsGood (some s) servers h k = (h s refl, k)

entries-IsGood : (ps : List Place) → All IsGood (entries ps)
unfolding entries
entries-IsGood [] = tt
entries-IsGood (p ∷ ps) = elim (Bool-cases (is_listing p.node)) [
  | inl e ↦ rw e (
      cons_some-IsGood (parse_server p.node) (entries ps) (parse_server-IsPlausible p.node)
        (entries-IsGood ps))
  | inr e ↦ rw e (entries-IsGood ps)
]

-- What the list of a page is: its named listings, the ones with more players first and those with
-- equally many in document order; each has a name and plausible fields.
pub record IsPage (root : Node) (servers : List Server) : Type 0 where
  pub complete : Perm servers (page_entries root)
  pub ordered : IsOrdered has_more servers
  pub stable : (z : ℤ) → keep (has_players z) servers ≡ keep (has_players z) (page_entries root)
  pub good : All (λ s. IsPlausible s × (is_empty s.name ≡ false)) servers

-- parseServers lists exactly the listings of the page that have a name, those with more players
-- first, and those with equally many in the order of the page. No number of a listing is negative or
-- out of the range of int, its link is to a page of the catalog or empty, and it has an address only
-- if it is marked as one that can be joined.
pub parse_servers-IsPage : (root : Node) → IsPage root (parse_servers root)
parse_servers-IsPage root = rw (parse_servers-entries root) (record {
  complete = sort_stable-perm has_more (page_entries root);
  ordered = sort_stable-IsOrdered has_more has_more-IsStrictWeak (page_entries root);
  stable = λ z. sort_stable-keep has_more (has_players z) (has_players_level z) (page_entries root);
  good =
      sort_stable-All has_more IsGood (page_entries root) (entries-IsGood (places none nil root));
})
