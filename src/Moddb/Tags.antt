-- ===== src/Moddb/Tags.antt =====
-- moddb/client.go: ListTags. The map from folded names to tags is the list of its tags; a tag is
-- found by its folded name, which is the key.
pub mod Count
pub mod Order
use vintagestory_go.Base.{
  ℕ, suc, Bool, not, ◌&&◌, Option, none, some, List, [], ◌∷◌, Text, eq_text, if◌then◌else◌,
}
use vintagestory_go.Base.Strings.{to_lower, lt_text}
use vintagestory_go.Base.Sort.{sort_stable}
use vintagestory_go.Vshttp.Errors.{Error, is, is_nil, Sentinel}
use vintagestory_go.Vshttp.Do.{Round}
use vintagestory_go.Moddb.Types.{Mod, Tag}
use vintagestory_go.Moddb.Client.{Client, Env, Reply, list}

abbrev pub key_of : Tag → Text
key_of t = to_lower t.name

-- by[k] == nil makes a tag with this spelling; by[k].Count++
unfoldable pub count_name : Text → List Tag → List Tag
count_name name [] = record { name = name; count = 1 } ∷ []
count_name name (t ∷ ts) =
    let rest = count_name name ts in
    if eq_text (key_of t) (to_lower name) then record t { count = suc t.count } ∷ ts else t ∷ rest

unfoldable pub count_names : List Text → List Tag → List Tag
unfolding count_name
count_names [] by = by
count_names (name ∷ names) by = count_names names (count_name name by)

unfoldable pub count_mods : List Mod → List Tag → List Tag
unfolding count_names
count_mods [] by = by
count_mods (m ∷ ms) by = count_mods ms (count_names m.tags by)

abbrev pub tag_less : Tag → Tag → Bool
tag_less a b = lt_text (key_of a) (key_of b)

-- No two tags have the same key, so that an unstable sort has no choice.
unfoldable pub tags_of : List Mod → List Tag
unfolding count_mods
tags_of items = sort_stable tag_less (count_mods items [])

tags_reply : Client × Reply → Client × (List Tag × Error)
unfolding tags_of
tags_reply (c, (items, e)) =
    if not (is_nil e) && not (is e Sentinel.moddb_stale)
    then (c, ([], e))
    else (c, (tags_of items, e))

-- func ListTags
unfoldable pub list_tags :
    Env
    → Client
    → (now later : ℕ) → Option Error
    → (ℕ → Round)
    → Option (Client × (List Tag × Error))
unfolding tags_reply
list_tags env c now later interrupt rounds = elim (list env c now later interrupt rounds) [
  | none ↦ none
  | some r ↦ some (tags_reply r)
]
