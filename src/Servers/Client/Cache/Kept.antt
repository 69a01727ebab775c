-- ===== src/Servers/Client/Cache/Kept.antt =====
-- servers/client.go List: what a call leaves behind for the next one.
use vintagestory_go.Base.{ℕ, ◌+◌, ◌<◌, ◌≤◌, ◌≡◌, ◌⊎◌, true, false, some, List, arith}
use vintagestory_go.Vshttp.Do.{Round}
use vintagestory_go.Vshttp.Json.{Result, ok, err}
use vintagestory_go.Servers.Types.{Server}
use vintagestory_go.Servers.Client.{Client, Env, is_none_kept, is_fresh, list_servers}

module _ (env : Env) where
  -- What a call leaves behind: a call that returns an error leaves the client as it was, and a call
  -- that returns servers keeps them, so that a later one that reads the clock within five minutes
  -- of the fetch returns them again, whatever the network would answer.
  abbrev pub IsKept :
      Client → Client → Result (List Server) → (now later : ℕ) → (ℕ → Round) → Type 0
  IsKept c c' (err e) now later rounds = c' ≡ c
  IsKept c c' (ok servers) now later rounds =
      (c'.fetched_at + 300_000_000_000 ≤ now)
      ⊎ (list_servers env c' now later rounds ≡ some (c', ok servers))

  within :
      (c : Client) (now : ℕ)
      → is_none_kept c.servers ≡ false
      → now < c.fetched_at + 300_000_000_000
      → is_fresh env c now ≡ true
  within c now h k = ground (arith, h, k)
