-- ===== src/Servers/Errors.antt =====
-- servers/errors.go.
use vintagestory_go.Vshttp.Errors.{Kind, Sentinel, Error}
use vintagestory_go.Vshttp.Legacy.{legacy_by}

legacy_sentinel : Kind → Sentinel
legacy_sentinel Kind.invalid_json = Sentinel.servers_invalid_catalog
legacy_sentinel Kind.invalid_response = Sentinel.servers_invalid_catalog
legacy_sentinel Kind.response_too_large = Sentinel.servers_invalid_catalog
legacy_sentinel _ = Sentinel.servers_unavailable

-- func legacy
unfoldable pub legacy : Error → Error
unfolding legacy_by legacy_sentinel
legacy e = legacy_by legacy_sentinel e
