-- ===== src/Moddb/Client/Details/Aliases.antt =====
-- moddb/client.go Get and fetchDetails: the keys under which details are kept.
use vintagestory_go.Base.{
  ℕ, ◌+◌, ◌≤◌, ◌<◌, ltb, ◌≡◌, ◌⊎◌, inl, inr, refl, sym, ◌∙◌, true, false, Option, none, some, Text,
  is_empty, eq_text, eq_text_refl, arith,
}
use vintagestory_go.Base.Strings.{trim_space}
use vintagestory_go.Vshttp.Errors.{Error}
use vintagestory_go.Vshttp.Do.{Round}
use vintagestory_go.Vshttp.Json.{Result, ok, err}
use vintagestory_go.Moddb.Types.{ModDetails, ModResponse}
use vintagestory_go.Moddb.Client.{Client, Env, CachedDetails, find, details_cache_ttl}
use vintagestory_go.Moddb.Client.Details.{
  keep_details, details_flight, fetch_details, details_interrupted, from_entry, get_mod,
}

-- A name of a mod whose details were asked for as `id`.
abbrev pub IsName : Text → ModDetails → Text → Type 0
IsName id d key = (key ≡ id) ⊎ (key ≡ d.base.id) ⊎ (key ≡ d.base.slug)

-- No entry is kept, or one that is older than thirty minutes.
abbrev pub IsMissed : ℕ → Option CachedDetails → Type 0
IsMissed now none = Unit {0}
IsMissed now (some x) = x.fetched_at + 1_800_000_000_000 ≤ now

module _ (env : Env) where
  kept_name :
      (c : Client) (id key : Text) (d : ModDetails) (later : ℕ)
      → is_empty key ≡ false
      → IsName id d key
      → find key (keep_details env c id d later).details
        ≡ some (record { value = d; fetched_at = later })
  unfolding keep_details
  kept_name c id key d later h (inl e) =
      ground (arith, eq_text_refl key, rw e at (eq_text_refl key))
  kept_name c id key d later h (inr (inl e)) =
      let same : eq_text d.base.id key ≡ true = rw e (eq_text_refl d.base.id) in
      ground (arith, same)
  kept_name c id key d later h (inr (inr e)) =
      let same : eq_text d.base.slug key ≡ true = rw e (eq_text_refl d.base.slug) in
      let there : is_empty d.base.slug ≡ false = rw (← e) h in ground (arith, same, there)

  flight_kept :
      (c : Client) (id endpoint : Text) (later : ℕ) (o : Option (Result ModResponse)) (c' : Client)
      (d : ModDetails)
      → details_flight env c id endpoint later o ≡ some (c', ok d)
      → c' ≡ keep_details env c id d later
  unfolding details_flight
  flight_kept c id endpoint later none c' d h = cc
  flight_kept c id endpoint later (some (err e)) c' d h = absurd (ground (arith, h))
  flight_kept c id endpoint later (some (ok r)) c' d h = ground (arith, h)

  missed :
      (c : Client) (raw : Text) (now later : ℕ) (rounds : ℕ → Round)
      → is_empty (trim_space raw) ≡ false
      → IsMissed now (find (trim_space raw) c.details)
      → get_mod env c raw now later none rounds ≡ fetch_details env c (trim_space raw) later rounds
  unfolding get_mod from_entry
  missed c raw now later rounds h e = rw h (go (find (trim_space raw) c.details) e)
    where
      idle : (o : Option (Client × Result ModDetails)) → details_interrupted env none o ≡ o
      idle none = refl
      idle (some x) = refl

      go :
          (o : Option CachedDetails)
          → IsMissed now o
          → from_entry env c (trim_space raw) now later none rounds o
            ≡ fetch_details env c (trim_space raw) later rounds
      go none m = idle (fetch_details env c (trim_space raw) later rounds)
      go (some x) m =
          let late : ltb now (x.fetched_at + details_cache_ttl) ≡ false = ground (arith, m) in
          rw late (idle (fetch_details env c (trim_space raw) later rounds))

  hit :
      (c : Client) (key : Text) (d : ModDetails) (at now later : ℕ) (interrupt : Option Error)
      (rounds : ℕ → Round)
      → trim_space key ≡ key
      → is_empty key ≡ false
      → find key c.details ≡ some (record { value = d; fetched_at = at })
      → now < at + details_cache_ttl
      → get_mod env c key now later interrupt rounds ≡ some (c, ok d)
  unfolding get_mod from_entry
  hit c key d at now later interrupt rounds t h e k =
      let early : ltb now (at + details_cache_ttl) ≡ true = ground (arith, k) in
      rw (t, h, e) (ground (arith, early))

  fetched_keeps :
      (c : Client) (id : Text) (later : ℕ) (rounds : ℕ → Round) (c' : Client) (d : ModDetails)
      → fetch_details env c id later rounds ≡ some (c', ok d)
      → c' ≡ keep_details env c id d later
  unfolding fetch_details
  fetched_keeps c id later rounds c' d h = flight_kept c id _ later _ c' d h

  -- After a call of Get that found no entry under its name, or one older than thirty minutes, and
  -- fetched the details of the mod, a call within thirty minutes that asks for
  -- the mod as before, by its id or by its slug returns the same details from the cache, whatever the
  -- network would answer, if the name has no surrounding space and is not empty.
  pub get_mod-get_mod :
      (c : Client) (raw : Text) (now later : ℕ) (rounds : ℕ → Round) (c' : Client) (d : ModDetails)
      → is_empty (trim_space raw) ≡ false
      → IsMissed now (find (trim_space raw) c.details)
      → get_mod env c raw now later none rounds ≡ some (c', ok d)
      → (key : Text) (now' later' : ℕ) (interrupt : Option Error) (rounds' : ℕ → Round)
      → IsName (trim_space raw) d key
      → trim_space key ≡ key
      → is_empty key ≡ false
      → now' < later + details_cache_ttl
      → get_mod env c' key now' later' interrupt rounds' ≡ some (c', ok d)
  get_mod-get_mod c raw now later rounds c' d h e g key now' later' interrupt rounds' name t k
        early =
      let kept =
        fetched_keeps c (trim_space raw) later rounds c' d
          (sym (missed c raw now later rounds h e) ∙ g) in
      hit c' key d later now' later' interrupt rounds' t k
        (rw kept (kept_name c (trim_space raw) key d later k name)) early
