-- ===== src/Vshttp/Message.antt =====
-- vshttp/vshttp.go: what the errors print, APIError.Error first of all.
use vintagestory_go.Base.{◌++◌, Text, text, is_empty, eq_text, ◌==◌, if◌then◌else◌, ◌||◌}
use vintagestory_go.Base.Strings.{itoa}
use vintagestory_go.Vshttp.Errors.{
  Kind, Sentinel, ApiInfo, Error, nil, sentinel, fault, wrapped, joined, url_error, api, is_nil,
}

pub kind_text : Kind → Text
kind_text Kind.unknown = text "unknown"
kind_text Kind.network = text "network"
kind_text Kind.timeout = text "timeout"
kind_text Kind.canceled = text "cancelled"
kind_text Kind.dns = text "dns"
kind_text Kind.tls = text "tls"
kind_text Kind.http_status = text "http_status"
kind_text Kind.rate_limit = text "rate_limit"
kind_text Kind.unauthorized = text "unauthorized"
kind_text Kind.forbidden = text "forbidden"
kind_text Kind.not_found = text "not_found"
kind_text Kind.server_error = text "server_error"
kind_text Kind.response_too_large = text "response_too_large"
kind_text Kind.body_read = text "body_read"
kind_text Kind.invalid_json = text "invalid_json"
kind_text Kind.invalid_response = text "invalid_response"
kind_text Kind.validation = text "validation"

pub sentinel_text : Sentinel → Text
sentinel_text Sentinel.canceled = text "context canceled"
sentinel_text Sentinel.deadline_exceeded = text "context deadline exceeded"
sentinel_text Sentinel.unexpected_eof = text "unexpected EOF"
sentinel_text Sentinel.invalid_response = text "invalid response"
sentinel_text Sentinel.response_too_large = text "response too large"
sentinel_text Sentinel.rate_limited = text "rate limited"
sentinel_text Sentinel.unauthorized = text "unauthorized"
sentinel_text Sentinel.forbidden = text "forbidden"
sentinel_text Sentinel.not_found = text "not found"
sentinel_text Sentinel.server = text "server error"
sentinel_text Sentinel.auth_invalid_credentials = text "invalid credentials"
sentinel_text Sentinel.auth_totp_required = text "totp required"
sentinel_text Sentinel.auth_ip_changed = text "ip changed"
sentinel_text Sentinel.auth_temporarily_blocked = text "temporarily blocked"
sentinel_text Sentinel.auth_session_expired = text "session expired"
sentinel_text Sentinel.auth_invalid_reply = text "invalid auth response"
sentinel_text Sentinel.auth_network = text "auth network error"
sentinel_text Sentinel.auth_server = text "auth server error"
sentinel_text Sentinel.auth_unknown = text "unknown auth error"
sentinel_text Sentinel.moddb_not_found = text "mod not found"
sentinel_text Sentinel.moddb_unavailable = text "mod catalog unavailable"
sentinel_text Sentinel.moddb_invalid_response = text "invalid mod catalog response"
sentinel_text Sentinel.moddb_stale = text "mod catalog refresh failed, serving stale cached data"
sentinel_text Sentinel.servers_unavailable = text "public server catalog unavailable"
sentinel_text Sentinel.servers_invalid_catalog = text "invalid public server catalog"
sentinel_text Sentinel.news_unavailable = text "official news unavailable"
sentinel_text Sentinel.news_invalid_feed = text "invalid official news feed"
sentinel_text Sentinel.versions_unavailable = text "version catalog unavailable"
sentinel_text Sentinel.versions_invalid_response = text "invalid version catalog response"

-- The detail of the message: the cause's text, or the status, or the kind; for an oversized
-- response the two sizes.
detail : ApiInfo → Error → Text → Text
unfolding kind_text itoa
detail i cause cause_text = elim i.kind [
  | Kind.response_too_large ↦
      text "response exceeds limit of "
      ++ itoa i.limit
      ++ text " bytes (read "
      ++ itoa i.body_size
      ++ text ")"
  | _ ↦
      if is_nil cause
      then (if i.status_code == 0 then kind_text i.kind else text "HTTP " ++ itoa i.status_code)
      else cause_text
]

what : ApiInfo → Text
what i = if is_empty i.operation then text "request" else i.operation

place : ApiInfo → Text
place i = if is_empty i.method then i.endpoint else i.method ++ text " " ++ i.endpoint

message : ApiInfo → Text → Text
unfolding what place eq_text
message i det =
    if is_empty (place i) || eq_text (place i) (text " ")
    then what i ++ text ": " ++ det
    else what i ++ text ": " ++ place i ++ text ": " ++ det

-- err.Error(); func (e *APIError) Error
unfoldable pub error_text : Error → Text
unfolding sentinel_text detail message
error_text nil = text "<nil>"
error_text (sentinel s) = sentinel_text s
error_text (fault f m) = m
error_text (wrapped m e) = m ++ error_text e
error_text (joined a m b) = error_text a ++ m ++ error_text b
error_text (url_error m e) = m ++ error_text e
error_text (api i cause) = message i (detail i cause (error_text cause))
