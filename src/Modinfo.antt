-- ===== src/Modinfo.antt =====
-- modinfo/modinfo.go: Parse and ReadArchive. The zip reader, json.Unmarshal and gjson are parameters;
-- the separator of paths is the slash, so filepath.ToSlash changes nothing.
pub mod Laws
mod Tests
use vintagestory_go.Base.{
  ℕ, suc, ltb, Bool, not, ◌&&◌, Option, none, some, List, [], ◌∷◌, take, length, Text, text,
  is_empty, if◌then◌else◌,
}
use vintagestory_go.Base.Strings.{trim_space, trim_prefix, equal_fold}
use vintagestory_go.Versions.Release.{base_name}

-- The dependencies are a map, as the list of its keys and values.
pub record Info : Type 0 where
  pub mod_id : Text
  pub name : Text
  pub version : Text
  pub dependencies : List (Text × Text)

-- What json.Unmarshal fills in; `none` is a nil map.
pub record StrictInfo : Type 0 where
  pub mod_id : Text
  pub name : Text
  pub version : Text
  pub dependencies : Option (List (Text × Text))

-- A member of an object as gjson reads it.
pub record Member : Type 0 where
  pub key : Text
  pub value : Text
  pub is_object : Bool
  pub is_array : Bool

-- What opening and reading an entry gives: the bytes, or one of the two failures.
pub data Content : Type 0 where
  content : Text → Content
  not_opened not_read : Content

-- An entry of an archive; what is read of it is given by the limit.
pub record Entry : Type 0 where
  pub name : Text
  pub declared_size : ℕ
  pub content : Content

pub data Archive : Type 0 where
  archive : List Entry → Archive
  no_zip not_opened : Archive

pub data ReadError : Type 0 where
  not_an_archive open_archive no_mod_info too_large open_entry read_entry invalid_content :
      ReadError

pub data Read : Type 0 where
  parsed : Info → Read
  failed : ReadError → Read

pub record Readers : Type 0 where
  pub strict : Text → Option StrictInfo
  pub string_at : Text → Text → Text
  pub members_at : Text → Text → Option (List Member)

-- 1 << 20
abbrev pub max_bytes : ℕ
max_bytes = 1_048_576

abbrev or_empty : Option (List (Text × Text)) → List (Text × Text)
or_empty none = []
or_empty (some ds) = ds

scalar_members : List Member → List (Text × Text)
scalar_members [] = []
scalar_members (m ∷ ms) =
    let rest = scalar_members ms in
    if not m.is_object && not m.is_array then (m.key, m.value) ∷ rest else rest

lenient_members : Option (List Member) → List (Text × Text)
unfolding scalar_members
lenient_members none = []
lenient_members (some ms) = scalar_members ms

abbrev is_root : Entry → Bool
is_root f = equal_fold (trim_prefix f.name (text "./")) (text "modinfo.json")

abbrev is_nested : Entry → Bool
is_nested f = equal_fold (base_name (trim_prefix f.name (text "./"))) (text "modinfo.json")

keep_nested : Option Entry → Entry → Option Entry
keep_nested (some b) f = some b
keep_nested none f = if is_nested f then some f else none

-- The loop over reader.File; `best` is modInfoFile.
unfoldable pub find_entry : Option Entry → List Entry → Option Entry
unfolding keep_nested
find_entry best [] = best
find_entry best (f ∷ fs) = if is_root f then some f else find_entry (keep_nested best f) fs

module _ (io : Readers) where
  lenient : Text → Option Info
  unfolding lenient_members
  lenient raw =
      let mod_id = trim_space (io.string_at raw (text "modid")) in
      let name = trim_space (io.string_at raw (text "name")) in
      let version = trim_space (io.string_at raw (text "version")) in
      if is_empty mod_id && is_empty name && is_empty version
      then none
      else some (record {
        mod_id = mod_id;
        name = name;
        version = version;
        dependencies = lenient_members (io.members_at raw (text "dependencies"));
      })

  strict_or_lenient : Text → Option StrictInfo → Option Info
  unfolding lenient
  strict_or_lenient raw none = lenient raw
  strict_or_lenient raw (some s) = some (record {
    mod_id = s.mod_id;
    name = s.name;
    version = s.version;
    dependencies = or_empty s.dependencies;
  })

  -- func Parse; `none` is its error. The mark is EF BB BF.
  unfoldable pub parse : Text → Option Info
  unfolding strict_or_lenient
  parse raw =
      let unmarked = trim_prefix raw (239 ∷ 187 ∷ 191 ∷ []) in
      strict_or_lenient unmarked (io.strict unmarked)

  parsed_or_invalid : Option Info → Read
  parsed_or_invalid none = failed invalid_content
  parsed_or_invalid (some i) = parsed i

  -- The size check after the read.
  within : ℕ → Text → Read
  unfolding parsed_or_invalid parse
  within max bytes =
      if ltb max (length bytes) then failed too_large else parsed_or_invalid (parse bytes)

  -- At most max_bytes + 1 bytes of the entry are read.
  read_content : Content → Read
  unfolding within
  read_content not_opened = failed open_entry
  read_content not_read = failed read_entry
  read_content (content c) = within max_bytes (take (suc max_bytes) c)

  read_entry_of : Option Entry → Read
  unfolding read_content
  read_entry_of none = failed no_mod_info
  read_entry_of (some f) =
      if ltb max_bytes f.declared_size then failed too_large else read_content f.content

  -- func ReadArchive
  unfoldable pub read_archive : Archive → Read
  unfolding find_entry read_entry_of
  read_archive no_zip = failed not_an_archive
  read_archive not_opened = failed open_archive
  read_archive (archive files) = read_entry_of (find_entry none files)
