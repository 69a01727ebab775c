-- ===== src/Servers/Client/Details.antt =====
-- servers/client.go Get: where the details of a server come from.
use vintagestory_go.Base.{
  ℕ, suc, ◌≡◌, ◌⊎◌, inl, inr, refl, sym, ap, ◌∙◌, true, false, Option, none, some, List, [], ◌∷◌,
  All, length, map, Text, is_empty, Bool-cases, arith,
}
use vintagestory_go.Base.Int.{pos}
use vintagestory_go.Vshttp.Request.{Url}
use vintagestory_go.Vshttp.Do.{Round}
use vintagestory_go.Vshttp.Json.{Result, ok, err}
use vintagestory_go.Servers.Types.{Mod, Server}
use vintagestory_go.Servers.Tree.{Node}
use vintagestory_go.Servers.Detail.{parse_server_detail}
use vintagestory_go.Servers.Detail.Laws.{IsVersioned, parse_server_detail-IsDetailed}
use vintagestory_go.Servers.Location.{resolve_mod, resolve_from, resolve_urls, detail_url}
use vintagestory_go.Servers.Client.{
  Client, Env, get_op, fetch_html, detailed, shown, asked, get_server,
}
use vintagestory_go.Servers.Client.Fetch.{IsFetchedPage, fetch_html-IsFetchedPage}

-- What the details of a server are: those of the page of one accepted reply at the address of the
-- id, with the links resolved.
pub record IsAnswer (env : Env) (c : Client) (id : Text) (rounds : ℕ → Round) (s : Server)
    : Type 0 where
  pub given : is_empty id ≡ false
  pub endpoint : Text
  pub address : detail_url env.parse_url c.endpoint id ≡ ok endpoint
  pub root : Node
  pub page : IsFetchedPage env endpoint rounds root
  pub read : Server
  pub parsed : parse_server_detail env.render root ≡ some read
  pub same :
      s ≡ resolve_urls env.parse_url env.resolve_text (record read { url = endpoint }) endpoint
  pub named : is_empty s.name ≡ false
  pub counted : s.mod_count ≡ pos (length s.mods)
  pub versioned : All IsVersioned s.mods
  pub joinable : (s.joinable ≡ true) ⊎ (s.address ≡ [])

module _ (env : Env) where
  length-map : (f : Mod → Mod) (mods : List Mod) → length (map f mods) ≡ length mods
  length-map f [] = refl
  length-map f (m ∷ mods) = ap suc (length-map f mods)

  map-IsVersioned :
      (base : Url) (mods : List Mod)
      → All IsVersioned mods
      → All IsVersioned (map (resolve_mod env.parse_url env.resolve_text base) mods)
  map-IsVersioned base [] h = tt
  map-IsVersioned base (m ∷ mods) h = (h.0, map-IsVersioned base mods h.1)

  -- What resolving the links keeps of the details.
  abbrev Keeps : Server → Type 0
  Keeps s =
      (is_empty s.name ≡ false)
      × (s.mod_count ≡ pos (length s.mods))
      × All IsVersioned s.mods
      × ((s.joinable ≡ true) ⊎ (s.address ≡ []))

  resolve_urls-Keeps :
      (s : Server) (endpoint : Text)
      → Keeps s
      → Keeps (resolve_urls env.parse_url env.resolve_text s endpoint)
  unfolding resolve_urls
  resolve_urls-Keeps s endpoint k = go (env.parse_url endpoint)
    where
      go : (o : Result Url) → Keeps (resolve_from env.parse_url env.resolve_text o s)
      go (err e) = k
      go (ok u) = (
        k.0,
        k.1 ∙ ap pos (sym (length-map (resolve_mod env.parse_url env.resolve_text u) s.mods)),
        map-IsVersioned u s.mods k.2,
        k.3,
      )

  detailed-ok :
      (endpoint : Text) (o : Option Server) (s : Server)
      → detailed env endpoint o ≡ ok s
      → (read : Server) × (o ≡ some read)
        × (s
            ≡ resolve_urls env.parse_url env.resolve_text (record read { url = endpoint }) endpoint)
  unfolding detailed
  detailed-ok endpoint none s h = absurd (ground (arith, h))
  detailed-ok endpoint (some read) s h = (read, refl, ground (arith, h))

  shown-IsAnswer :
      (c : Client) (id endpoint : Text) (rounds : ℕ → Round) (o : Option (Result Node)) (s : Server)
      → is_empty id ≡ false
      → detail_url env.parse_url c.endpoint id ≡ ok endpoint
      → fetch_html env c endpoint get_op rounds ≡ o
      → shown env endpoint o ≡ some (ok s)
      → IsAnswer env c id rounds s
  unfolding shown
  shown-IsAnswer c id endpoint rounds none s n a f h = cc
  shown-IsAnswer c id endpoint rounds (some (err e)) s n a f h = absurd (ground (arith, h))
  shown-IsAnswer c id endpoint rounds (some (ok root)) s n a f h =
      let (read, parsed, same) =
        detailed-ok endpoint (parse_server_detail env.render root) s (ground (arith, h)) in
      let (fine, counted, named) = parse_server_detail-IsDetailed env.render root read parsed in
      let kept =
        resolve_urls-Keeps (record read { url = endpoint }) endpoint
          (named, counted, fine.mods, fine.joinable) in
      record {
        given = n;
        endpoint = endpoint;
        address = a;
        root = root;
        page = fetch_html-IsFetchedPage env c endpoint get_op rounds root f;
        read = read;
        parsed = parsed;
        same = same;
        named = rw same kept.0;
        counted = rw same kept.1;
        versioned = rw same kept.2;
        joinable = rw same kept.3;
      }

  asked-IsAnswer :
      (c : Client) (id : Text) (rounds : ℕ → Round) (o : Result Text) (s : Server)
      → is_empty id ≡ false
      → detail_url env.parse_url c.endpoint id ≡ o
      → asked env c o rounds ≡ some (ok s)
      → IsAnswer env c id rounds s
  unfolding asked
  asked-IsAnswer c id rounds (err e) s n a h = absurd (ground (arith, h))
  asked-IsAnswer c id rounds (ok endpoint) s n a h =
      shown-IsAnswer c id endpoint rounds (fetch_html env c endpoint get_op rounds) s n a refl h

  -- The server that Get returns is read from the page of one accepted reply at the address of the
  -- id, which is not empty; its links are resolved against that address, it has a name, its count
  -- of mods is that of its mods, no mod has an @ in its version or a version without a name, and it
  -- has an address only with the mark that it can be joined.
  pub get_server-IsAnswer :
      (c : Client) (id : Text) (rounds : ℕ → Round) (s : Server)
      → get_server env c id rounds ≡ some (ok s)
      → IsAnswer env c id rounds s
  unfolding get_server
  get_server-IsAnswer c id rounds s h = elim (Bool-cases (is_empty id)) [
    | inl e ↦ absurd (ground (arith, h, e))
    | inr e ↦
        asked-IsAnswer c id rounds (detail_url env.parse_url c.endpoint id) s e refl
          (ground (arith, h, e))
  ]
