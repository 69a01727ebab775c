-- ===== src/Moddb/Answer/Overflow.antt =====
-- moddb/client.go Search: page numbers whose first index leaves the int64 range.
use vintagestory_go.Base.{ℕ, ◌-◌, ◌*◌, ◌%◌, ◌<◌, ◌≡◌, ◌⊎◌, true, none, some, List, arith}
use vintagestory_go.Base.Int.{max_int64}
use vintagestory_go.Vshttp.Errors.{Error, Sentinel, is, is_nil}
use vintagestory_go.Moddb.Types.{Mod, SearchOptions}
use vintagestory_go.Moddb.Search.{page_of, size_of}
use vintagestory_go.Moddb.Search.Paging.{search_page-none_iff}
use vintagestory_go.Moddb.Client.{Client, Env}
use vintagestory_go.Moddb.Answer.{Visit, param_of, deliver, searched, catalog_for, search}

module _ (env : Env) (visits : ℕ → Visit) where
  -- Search panics whenever its catalog can be had, fresh or stale, and the index of the first item of
  -- the page that is asked for, cut to 64 bits, is negative.
  pub search_overflow :
      (c : Client) (q : SearchOptions) (first : Visit) (ctx_err : Error) (after : Client)
      (items : List Mod) (e : Error)
      → catalog_for env visits c (param_of q) first ≡ some (after, (items, e))
      → (is_nil e ≡ true) ⊎ (is e Sentinel.moddb_stale ≡ true)
      → max_int64 < (page_of q.page - 1) * size_of q.page_size % 18446744073709551616
      → search env visits c q first ctx_err ≡ none
  unfolding search searched deliver
  search_overflow c q first ctx_err after items e looked usable far =
      let gone = (search_page-none_iff q items).1 far in
      rw (search, looked, searched) (rw gone (ground (arith, usable)))
