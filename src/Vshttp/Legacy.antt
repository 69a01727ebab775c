-- ===== src/Vshttp/Legacy.antt =====
-- The `legacy` functions of the packages: an APIError without a sentinel of the package gets the one
-- of its kind, in place; every other error is passed on.
use vintagestory_go.Base.{◌≡◌, refl, false, Option, none, some}
use vintagestory_go.Vshttp.Errors.{Kind, Sentinel, ApiInfo, Error, api, as_api, is_nil, with_legacy}

legacy_from : (Kind → Sentinel) → Error → Option (ApiInfo × Error) → Error
unfolding with_legacy
legacy_from choose e none = e
legacy_from choose e (some (i, cause)) = elim i.legacy [
  | none ↦ api (with_legacy i (choose i.kind)) cause
  | some s ↦ e
]

-- errors.As, then the sentinel that the switch over the kind chooses
unfoldable pub legacy_by : (Kind → Sentinel) → Error → Error
unfolding legacy_from
legacy_by choose e = legacy_from choose e (as_api e)

-- An error stays an error.
pub legacy_by-present :
    (choose : Kind → Sentinel) (e : Error) → is_nil e ≡ false → is_nil (legacy_by choose e) ≡ false
unfolding legacy_by legacy_from
legacy_by-present choose e h = go (as_api e)
  where
    go : (o : Option (ApiInfo × Error)) → is_nil (legacy_from choose e o) ≡ false
    go none = h
    go (some (i, cause)) = from i.legacy
      where
        from :
            (o : Option Sentinel)
            → is_nil (elim o [ none ↦ api (with_legacy i (choose i.kind)) cause | some s ↦ e ])
              ≡ false
        from none = refl
        from (some s) = h
