-- ===== src/Servers/Entry/Fields.antt =====
-- servers/parser.go parseServer: what each field that is read keeps of a listing.
use vintagestory_go.Base.{
  ◌≡◌, ◌⊎◌, inl, inr, refl, Bool, true, ◌&&◌, Option, none, some, [], Text, text, is_empty,
  Bool-cases, arith,
}
use vintagestory_go.Base.Strings.{has_prefix, contains}
use vintagestory_go.Base.Strings.Numerals.{InRange}
use vintagestory_go.Servers.Types.{Server}
use vintagestory_go.Servers.Tree.{Node}
use vintagestory_go.Servers.Patterns.{players_pattern, player_limit_pattern, mods_pattern}
use vintagestory_go.Servers.Patterns.Numbers.{
  players_pattern-IsNumber, mods_pattern-IsNumber, player_limit_pattern-IsNumber,
}
use vintagestory_go.Servers.Entry.{
  number, with_players, with_label, with_title, with_page, with_join, with_mods,
}

-- A page of the catalog, or none.
abbrev pub IsPage : Text → Type 0
IsPage url = (url ≡ []) ⊎ (has_prefix url (text "/s/") ≡ true)

-- What holds of a listing: its numbers are those of an int that is not negative, an address comes
-- with the mark that it can be joined, and its link is to a page of the catalog.
pub record IsPlausible (s : Server) : Type 0 where
  pub players : InRange s.players
  pub max_players : InRange s.max_players
  pub mod_count : InRange s.mod_count
  pub joinable : (s.joinable ≡ true) ⊎ (s.address ≡ [])
  pub page : IsPage s.url

pub with_players-IsPlausible :
    (s : Server) (label : Text)
    → IsPlausible s
    → IsPlausible (with_players s (players_pattern label))
with_players-IsPlausible s label v = go (players_pattern label) (players_pattern-IsNumber label)
  where
    go :
        (o : Option Text)
        → ((d : Text) → o ≡ some d → InRange (number d))
        → IsPlausible (with_players s o)
    go none h = v
    go (some d) h = record {
      players = h d refl;
      max_players = v.max_players;
      mod_count = v.mod_count;
      joinable = v.joinable;
      page = v.page;
    }

pub with_mods-IsPlausible :
    (s : Server) (label : Text) → IsPlausible s → IsPlausible (with_mods s (mods_pattern label))
with_mods-IsPlausible s label v = go (mods_pattern label) (mods_pattern-IsNumber label)
  where
    go :
        (o : Option Text)
        → ((d : Text) → o ≡ some d → InRange (number d))
        → IsPlausible (with_mods s o)
    go none h = v
    go (some d) h = record {
      players = v.players;
      max_players = v.max_players;
      mod_count = h d refl;
      joinable = v.joinable;
      page = v.page;
    }

pub with_label-IsPlausible :
    (s : Server) (label : Text)
    → IsPlausible s
    → IsPlausible (with_label s label (player_limit_pattern label))
with_label-IsPlausible s label v =
    go (player_limit_pattern label) (player_limit_pattern-IsNumber label)
  where
    go :
        (o : Option (Text × Text))
        → ((d m : Text) → o ≡ some (d, m) → InRange (number d) × InRange (number m))
        → IsPlausible (with_label s label o)
    go none h = elim (Bool-cases (is_empty s.game_version && contains label (text "."))) [
      | inl e ↦ rw e (record {
        players = v.players;
        max_players = v.max_players;
        mod_count = v.mod_count;
        joinable = v.joinable;
        page = v.page;
      })
      | inr e ↦ rw e v
    ]
    go (some (d, m)) h =
        let found = h d m refl in
        record {
          players = found.0;
          max_players = found.1;
          mod_count = v.mod_count;
          joinable = v.joinable;
          page = v.page;
        }

pub with_title-IsPlausible :
    (s : Server) (n : Node) (tag : Text) → IsPlausible s → IsPlausible (with_title s n tag)
unfolding with_title
with_title-IsPlausible s n tag v = ground (arith, v)

pub with_page-IsPlausible :
    (current : Bool) (s : Server) (href : Text)
    → IsPlausible s
    → IsPlausible (with_page current s href)
unfolding with_page
with_page-IsPlausible current s href v =
    elim (Bool-cases (current && has_prefix href (text "/s/"))) [
      | inl e ↦ rw e (record {
        players = v.players;
        max_players = v.max_players;
        mod_count = v.mod_count;
        joinable = v.joinable;
        page = inr (ground (arith, e));
      })
      | inr e ↦ rw e v
    ]

pub with_join-IsPlausible :
    (current : Bool) (s : Server) (n : Node) (href : Text)
    → IsPlausible s
    → IsPlausible (with_join current s n href)
unfolding with_join
with_join-IsPlausible current s n href v = ground (arith, v)
