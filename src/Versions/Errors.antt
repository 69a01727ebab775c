-- ===== src/Versions/Errors.antt =====
-- versions/errors.go.
use vintagestory_go.Vshttp.Errors.{Kind, Sentinel, Error}
use vintagestory_go.Vshttp.Legacy.{legacy_by}

legacy_sentinel : Kind → Sentinel
legacy_sentinel Kind.invalid_json = Sentinel.versions_invalid_response
legacy_sentinel Kind.invalid_response = Sentinel.versions_invalid_response
legacy_sentinel Kind.response_too_large = Sentinel.versions_invalid_response
legacy_sentinel _ = Sentinel.versions_unavailable

-- func legacy
unfoldable pub legacy : Error → Error
unfolding legacy_by legacy_sentinel
legacy e = legacy_by legacy_sentinel e
