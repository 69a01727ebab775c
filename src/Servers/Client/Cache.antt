-- ===== src/Servers/Client/Cache.antt =====
-- servers/client.go List: the cache over a sequence of calls.
pub mod Kept
use vintagestory_go.Base.{
  In, ◌<◌, ◌+◌, ℕ, ◌≡◌, ◌≢◌, ◌⊎◌, inl, inr, refl, sym, ap, subst, true, false, Option, none, some,
  List, [], ◌∷◌, All, Text, is_empty, Bool-cases, arith,
}
use vintagestory_go.Base.Sort.{IsOrdered}
use vintagestory_go.Base.Strings.Numerals.{InRange}
use vintagestory_go.Vshttp.Errors.{Error}
use vintagestory_go.Vshttp.Request.{Url}
use vintagestory_go.Vshttp.Retry.{RetryPolicy}
use vintagestory_go.Vshttp.Do.{Round}
use vintagestory_go.Vshttp.Json.{Result, ok, err}
use vintagestory_go.Servers.Types.{Server}
use vintagestory_go.Servers.Tree.{Node}
use vintagestory_go.Servers.Entry.Fields.{IsPlausible}
use vintagestory_go.Servers.Listing.{has_more, parse_servers}
use vintagestory_go.Servers.Listing.Laws.{parse_servers-IsPage}
use vintagestory_go.Servers.Location.{resolve_from, resolve_urls}
use vintagestory_go.Servers.Client.{
  Client, Env, new_client_with_url, set_retry_policy, list_op, fetch_html, no_listings,
  resolved_all, stored, listed, is_fresh, list_servers,
}
use vintagestory_go.Servers.Client.Fetch.{IsFetchedPage, fetch_html-IsFetchedPage}

-- What a caller may rely on of a server of the list.
pub record IsUsable (s : Server) : Type 0 where
  pub named : is_empty s.name ≡ false
  pub players : InRange s.players
  pub max_players : InRange s.max_players
  pub mod_count : InRange s.mod_count
  pub joinable : (s.joinable ≡ true) ⊎ (s.address ≡ [])

-- What the list of a fetch is: the listings of the page of one accepted reply, with their links
-- resolved, at least one, all usable, those with more players first.
pub record IsCatalog (env : Env) (endpoint : Text) (rounds : ℕ → Round) (servers : List Server)
    : Type 0 where
  pub root : Node
  pub page : IsFetchedPage env endpoint rounds root
  pub complete : servers ≡ resolved_all env endpoint (parse_servers root)
  pub present : servers ≢ []
  pub usable : All IsUsable servers
  pub ordered : IsOrdered has_more servers

-- The clients that a program can reach from the constructors, by the calls that return.
pub data History (env : Env) : Client → Type 0 where
  created : (endpoint : Text) → History env (new_client_with_url endpoint)
  tuned : {c : Client} → History env c → (p : RetryPolicy) → History env (set_retry_policy c p)
  asked :
      {c c' : Client}
      → History env c
      → (now later : ℕ) (rounds : ℕ → Round) (r : Result (List Server))
      → list_servers env c now later rounds ≡ some (c', r)
      → History env c'

module _ (env : Env) where
  -- The replies that the network gave in a history, by its calls, the last one first.
  pub sources : {c : Client} → History env c → List (ℕ → Round)
  sources (created endpoint) = []
  sources (tuned h p) = sources h
  sources (asked h now later rounds r e) = rounds ∷ sources h

  resolve_urls-players :
      (s : Server) (endpoint : Text)
      → (resolve_urls env.parse_url env.resolve_text s endpoint).players ≡ s.players
  unfolding resolve_urls
  resolve_urls-players s endpoint = go (env.parse_url endpoint)
    where
      go : (o : Result Url) → (resolve_from env.parse_url env.resolve_text o s).players ≡ s.players
      go (err e) = refl
      go (ok u) = refl

  resolve_urls-IsUsable :
      (s : Server) (endpoint : Text)
      → IsPlausible s
      → is_empty s.name ≡ false
      → IsUsable (resolve_urls env.parse_url env.resolve_text s endpoint)
  unfolding resolve_urls
  resolve_urls-IsUsable s endpoint v n = go (env.parse_url endpoint)
    where
      go : (o : Result Url) → IsUsable (resolve_from env.parse_url env.resolve_text o s)
      go (err e) = record {
        named = n;
        players = v.players;
        max_players = v.max_players;
        mod_count = v.mod_count;
        joinable = v.joinable;
      }
      go (ok u) = record {
        named = n;
        players = v.players;
        max_players = v.max_players;
        mod_count = v.mod_count;
        joinable = v.joinable;
      }

  resolved_all-IsUsable :
      (endpoint : Text) (servers : List Server)
      → All (λ s. IsPlausible s × (is_empty s.name ≡ false)) servers
      → All IsUsable (resolved_all env endpoint servers)
  unfolding resolved_all
  resolved_all-IsUsable endpoint [] h = tt
  resolved_all-IsUsable endpoint (s ∷ rest) h =
      (resolve_urls-IsUsable s endpoint h.0.0 h.0.1, resolved_all-IsUsable endpoint rest h.1)

  resolved_all-below :
      (endpoint : Text) (s : Server) (servers : List Server)
      → All (λ t. has_more t s ≡ false) servers
      → All
          (λ t. has_more t (resolve_urls env.parse_url env.resolve_text s endpoint) ≡ false)
          (resolved_all env endpoint servers)
  unfolding resolved_all
  resolved_all-below endpoint s [] h = tt
  resolved_all-below endpoint s (t ∷ rest) h = (
    rw (resolve_urls-players s endpoint, resolve_urls-players t endpoint) (h.0),
    resolved_all-below endpoint s rest h.1,
  )

  resolved_all-IsOrdered :
      (endpoint : Text) (servers : List Server)
      → IsOrdered has_more servers
      → IsOrdered has_more (resolved_all env endpoint servers)
  unfolding resolved_all
  resolved_all-IsOrdered endpoint [] h = tt
  resolved_all-IsOrdered endpoint (s ∷ rest) h =
      (resolved_all-below endpoint s rest h.0, resolved_all-IsOrdered endpoint rest h.1)

  -- The ways in which List returns.
  pub data Listed (c : Client) (now later : ℕ) (rounds : ℕ → Round)
      : Client → Result (List Server) → Type 0 where
    from_cache : is_fresh env c now ≡ true → Listed c now later rounds c (ok c.servers)
    refreshed :
        (servers : List Server)
        → IsCatalog env c.endpoint rounds servers
        → Listed c now later rounds
            (record c { servers = servers; fetched_at = later })
            (ok servers)
    refresh_failed : (e : Error) → Listed c now later rounds c (err e)

  stored-Listed :
      (c : Client) (now later : ℕ) (rounds : ℕ → Round) (root : Node) (servers : List Server)
      (c' : Client) (r : Result (List Server))
      → IsFetchedPage env c.endpoint rounds root
      → parse_servers root ≡ servers
      → stored env c later servers ≡ (c', r)
      → Listed c now later rounds c' r
  unfolding stored
  stored-Listed c now later rounds root [] c' r f p h =
      let (m, n) : (c ≡ c') × (err (no_listings c.endpoint) ≡ r) = ground (arith, h) in
      rw (← m, ← n) (refresh_failed (no_listings c.endpoint))
  stored-Listed c now later rounds root (s ∷ rest) c' r f p h =
      let page = parse_servers-IsPage root in
      let servers = resolved_all env c.endpoint (s ∷ rest) in
      let catalog : IsCatalog env c.endpoint rounds servers = record {
        root = root;
        page = f;
        complete = ap (resolved_all env c.endpoint) (sym p);
        present = λ e. unfold resolved_all in ground (arith, e);
        usable = resolved_all-IsUsable c.endpoint (s ∷ rest) (
            subst (λ (l : List Server). All (λ s. IsPlausible s × (is_empty s.name ≡ false)) l) p
              page.good);
        ordered =
            resolved_all-IsOrdered c.endpoint (s ∷ rest)
              (subst (λ (l : List Server). IsOrdered has_more l) p page.ordered);
      } in
      let (m, n) : (record c { servers = servers; fetched_at = later } ≡ c') × (ok servers ≡ r) =
        ground (arith, h) in
      rw (← m, ← n) (refreshed servers catalog)

  listed-Listed :
      (c : Client) (now later : ℕ) (rounds : ℕ → Round) (o : Option (Result Node)) (c' : Client)
      (r : Result (List Server))
      → fetch_html env c c.endpoint list_op rounds ≡ o
      → listed env c later o ≡ some (c', r)
      → Listed c now later rounds c' r
  unfolding listed
  listed-Listed c now later rounds none c' r f h = cc
  listed-Listed c now later rounds (some (err e)) c' r f h =
      let (m, n) : (c ≡ c') × (err e ≡ r) = ground (arith, h) in rw (← m, ← n) (refresh_failed e)
  listed-Listed c now later rounds (some (ok root)) c' r f h =
      stored-Listed c now later rounds root (parse_servers root) c' r
        (fetch_html-IsFetchedPage env c c.endpoint list_op rounds root f) refl (ground (arith, h))

  pub list_servers-Listed :
      (c : Client) (now later : ℕ) (rounds : ℕ → Round) (c' : Client) (r : Result (List Server))
      → list_servers env c now later rounds ≡ some (c', r)
      → Listed c now later rounds c' r
  unfolding list_servers
  list_servers-Listed c now later rounds c' r h = elim (Bool-cases (is_fresh env c now)) [
    | inl e ↦
        let (m, n) : (c ≡ c') × (ok c.servers ≡ r) = ground (arith, h, e) in
        rw (← m, ← n) (from_cache e)
    | inr e ↦
        listed-Listed c now later rounds (fetch_html env c c.endpoint list_op rounds) c' r refl
          (ground (arith, h, e))
  ]

  -- The cache is empty or a catalog of one of the replies.
  abbrev IsSound : List (ℕ → Round) → Client → Type 0
  IsSound past c =
      (c.servers ≡ [])
      ⊎ ((source : ℕ → Round) × In source past × IsCatalog env c.endpoint source c.servers)

  IsSound-cons :
      (past : List (ℕ → Round)) (c : Client) (rounds : ℕ → Round)
      → IsSound past c
      → IsSound (rounds ∷ past) c
  IsSound-cons past c rounds (inl e) = inl e
  IsSound-cons past c rounds (inr (source, m, k)) = inr (source, inr m, k)

  Listed-IsSound :
      (past : List (ℕ → Round)) (c : Client) (now later : ℕ) (rounds : ℕ → Round) (c' : Client)
      (r : Result (List Server))
      → IsSound past c
      → Listed c now later rounds c' r
      → IsSound (rounds ∷ past) c'
  Listed-IsSound past c now later rounds c' r s (from_cache h) = IsSound-cons past c rounds s
  Listed-IsSound past c now later rounds c' r s (refreshed servers k) = inr (rounds, inl refl, k)
  Listed-IsSound past c now later rounds c' r s (refresh_failed e) = IsSound-cons past c rounds s

  History-IsSound : (c : Client) → (h : History env c) → IsSound (sources h) c
  unfolding new_client_with_url set_retry_policy sources
  History-IsSound c (created endpoint) = inl refl
  History-IsSound c (tuned h p) = History-IsSound _ h
  History-IsSound c (asked h now later rounds r e) =
      Listed-IsSound (sources h) _ now later rounds c r (History-IsSound _ h)
        (list_servers-Listed _ now later rounds c r e)

  not_fresh : (c : Client) (now : ℕ) → c.servers ≡ [] → is_fresh env c now ≡ false
  not_fresh c now e = rw e refl

  -- Where the servers of a call come from: the replies of the call itself, or, within five minutes of
  -- the time of the cache, those of an earlier one.
  abbrev pub IsProvided : List (ℕ → Round) → Client → (now : ℕ) → (ℕ → Round) → List Server → Type 0
  IsProvided past c now rounds servers =
      (source : ℕ → Round) × IsCatalog env c.endpoint source servers
      × ((source ≡ rounds) ⊎ (In source past × (now < c.fetched_at + 300_000_000_000)))

  Listed-IsProvided :
      (past : List (ℕ → Round)) (c : Client) (now later : ℕ) (rounds : ℕ → Round) (c' : Client)
      (servers : List Server)
      → IsSound past c
      → Listed c now later rounds c' (ok servers)
      → IsProvided past c now rounds servers
  Listed-IsProvided past c now later rounds c' servers (inl e) (from_cache h) =
      absurd (ground (arith, h, not_fresh c now e))
  Listed-IsProvided past c now later rounds c' servers (inr (source, m, k)) (from_cache h) =
      (source, k, inr (m, ground (arith, h)))
  Listed-IsProvided past c now later rounds c' servers s (refreshed _ k) = (rounds, k, inl refl)

  -- After any history of calls, the servers that List returns are the listings of the page of one
  -- accepted reply, with their links resolved: at least one, each with a name, no number that is
  -- negative or out of the range of int, an address only with the mark that the server can be joined,
  -- and no server before one with more players. The reply is one that the network gave in this call
  -- or, if the clock reads less than five minutes after the time of the cache, in an earlier one.
  pub list_servers-IsProvided :
      (c : Client) (now later : ℕ) (rounds : ℕ → Round) (c' : Client) (servers : List Server)
      (h : History env c)
      → list_servers env c now later rounds ≡ some (c', ok servers)
      → IsProvided (sources h) c now rounds servers
  list_servers-IsProvided c now later rounds c' servers h e =
      Listed-IsProvided (sources h) c now later rounds c' servers (History-IsSound c h)
        (list_servers-Listed c now later rounds c' (ok servers) e)
