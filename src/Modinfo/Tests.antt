-- ===== src/Modinfo/Tests.antt =====
-- Runs of package modinfo: an archive with a nested entry before the one at its root.
use vintagestory_go.Base.{◌≡◌, refl, none, List, [], ◌∷◌, Text, text, eq_text}
use vintagestory_go.Base.Strings.{trim_space, trim_prefix, equal_fold, to_lower, has_prefix}
use vintagestory_go.Versions.Release.{base_name}
use vintagestory_go.Modinfo.{
  Info, content, Entry, archive, parsed, failed, no_mod_info, Readers, find_entry, parse,
  read_archive,
}
use vintagestory_go.Modinfo.Laws.{IsRead, read_archive-IsRead}

-- What reading computes with.
reading : Unit {0}
unfolding trim_space trim_prefix equal_fold to_lower has_prefix base_name find_entry parse
    read_archive eq_text
reading = tt

abbrev readers : Readers
readers = record {
  strict = λ b. none;
  string_at = λ raw key. text " carts ";
  members_at = λ raw key. none;
}

abbrev entry : Text → Text → Entry
entry name bytes = record { name = name; declared_size = 2; content = content bytes }

abbrev files : List Entry
files = entry (text "src/modinfo.json") (text "{}") ∷ entry (text "./ModInfo.json") (text "[]") ∷ []

abbrev carts : Info
carts = record {
  mod_id = text "carts";
  name = text "carts";
  version = text "carts";
  dependencies = [];
}

read_run : read_archive readers (archive files) ≡ parsed carts
unfolding reading
read_run = refl

nothing_found :
    read_archive readers (archive (entry (text "readme.md") (text "") ∷ [])) ≡ failed no_mod_info
unfolding reading
nothing_found = refl

read_archive-IsRead_example : IsRead readers files carts
read_archive-IsRead_example = read_archive-IsRead readers files carts read_run
