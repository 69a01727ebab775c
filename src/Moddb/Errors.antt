-- ===== src/Moddb/Errors.antt =====
-- moddb/errors.go.
use vintagestory_go.Base.{some, ◌++◌, Text, text, eq_text, if◌then◌else◌, false}
use vintagestory_go.Base.Int.{pos}
use vintagestory_go.Vshttp.Errors.{Kind, Sentinel, Fault, Error, fault, api}
use vintagestory_go.Vshttp.Legacy.{legacy_by}

legacy_sentinel : Kind → Sentinel
legacy_sentinel Kind.not_found = Sentinel.moddb_not_found
legacy_sentinel Kind.invalid_json = Sentinel.moddb_invalid_response
legacy_sentinel Kind.invalid_response = Sentinel.moddb_invalid_response
legacy_sentinel Kind.response_too_large = Sentinel.moddb_invalid_response
legacy_sentinel _ = Sentinel.moddb_unavailable

-- func legacy
unfoldable pub legacy : Error → Error
unfolding legacy_by legacy_sentinel
legacy e = legacy_by legacy_sentinel e

-- An APIError that the package writes out; `cause` is printed as its message. %q of the status code
-- is the code between quotes.
abbrev pub package_error : Text → Text → Kind → Sentinel → Error → Error
package_error op endpoint kind s cause =
    api
      (record {
        operation = op;
        method = text "GET";
        endpoint = endpoint;
        status_code = 0;
        content_type = text "";
        kind = kind;
        retryable = false;
        retry_after = pos 0;
        body_size = 0;
        limit = 0;
        legacy = some s;
      })
      cause

abbrev pub status_cause : Text → Error
status_cause code = fault Fault.other (text "moddb API returned statuscode \"" ++ code ++ text "\"")

-- func apiStatusError
unfoldable pub api_status_error : Text → Text → Text → Error
api_status_error op endpoint code =
    if eq_text code (text "404")
    then package_error op endpoint Kind.not_found Sentinel.moddb_not_found (status_cause code)
    else package_error op endpoint Kind.server_error Sentinel.moddb_unavailable (status_cause code)
