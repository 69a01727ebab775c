-- ===== src/Auth.antt =====
-- auth/client.go, auth/models.go and auth/errors.go: Login and Validate. The form of a request is the
-- list of its fields; the server answers by the form, so its rounds are a function of it.
pub mod Laws
pub mod Once
mod Tests
use vintagestory_go.Base.{
  ℕ, Bool, true, false, not, ◌&&◌, ◌||◌, Option, none, some, List, [], ◌∷◌, ◌++◌, member, Text,
  text, is_empty, eq_text, if◌then◌else◌,
}
use vintagestory_go.Base.Int.{ℤ, pos}
use vintagestory_go.Base.Strings.{trim_space, to_lower}
use vintagestory_go.Vshttp.Errors.{Kind, Sentinel, Fault, other, Error, nil, sentinel, fault, api}
use vintagestory_go.Vshttp.Legacy.{legacy_by}
use vintagestory_go.Vshttp.Request.{Url, Request, post}
use vintagestory_go.Vshttp.Retry.{RetryPolicy}
use vintagestory_go.Vshttp.Do.{Round}
use vintagestory_go.Vshttp.Json.{Decoded, Result, ok, err, fetch_json}

legacy_sentinel : Kind → Sentinel
legacy_sentinel Kind.invalid_json = Sentinel.auth_invalid_reply
legacy_sentinel Kind.invalid_response = Sentinel.auth_invalid_reply
legacy_sentinel Kind.response_too_large = Sentinel.auth_invalid_reply
legacy_sentinel Kind.body_read = Sentinel.auth_invalid_reply
legacy_sentinel Kind.network = Sentinel.auth_network
legacy_sentinel Kind.timeout = Sentinel.auth_network
legacy_sentinel Kind.dns = Sentinel.auth_network
legacy_sentinel Kind.tls = Sentinel.auth_network
legacy_sentinel Kind.canceled = Sentinel.auth_network
legacy_sentinel Kind.validation = Sentinel.auth_network
legacy_sentinel _ = Sentinel.auth_server

-- func legacy
unfoldable pub legacy : Error → Error
unfolding legacy_by legacy_sentinel
legacy e = legacy_by legacy_sentinel e

-- flexibleBool.UnmarshalJSON on the raw JSON value; `none` is its error.
unfoldable pub flexible_bool : Text → Option Bool
flexible_bool raw =
    let value = to_lower (trim_space raw) in
    if member value (text "1" ∷ text "true" ∷ text "\"1\"" ∷ text "\"true\"" ∷ [])
    then some true
    else if member value (text "0" ∷ text "false" ∷ text "\"0\"" ∷ text "\"false\"" ∷ [])
    then some false
    else none

pub record Session : Type 0 where
  pub session_key : Text
  pub session_signature : Text
  pub uid : Text
  pub player_name : Text

abbrev pub no_session : Session
no_session = record {
  session_key = text "";
  session_signature = text "";
  uid = text "";
  player_name = text "";
}

pub record TotpChallenge : Type 0 where
  pub pre_login_token : Text

pub record LoginResponse : Type 0 where
  pub session_key : Option Text
  pub session_signature : Option Text
  pub uid : Option Text
  pub player_name : Option Text
  pub valid : Bool
  pub pre_login_token : Option Text
  pub reason : Option Text

-- The endpoints of a client.
pub record Client : Type 0 where
  pub login_url : Text
  pub validate_url : Text

abbrev pub Form : Type 0
Form = List (Text × Text)

-- The libraries that the package calls: http.ParseTime, http.NewRequestWithContext, and json.Unmarshal
-- into the two responses, which reads a flexibleBool by the function that it is given.
pub record Env : Type 0 where
  pub until : Text → Option ℤ
  pub resolve : Text → Result Url
  pub unmarshal_login : (Text → Option Bool) → Text → Decoded LoginResponse
  pub unmarshal_validate : (Text → Option Bool) → Text → Decoded Bool

-- RetryPolicy{MaxAttempts: 1}
abbrev pub no_retry : RetryPolicy
no_retry = record { max_attempts = pos 1; base_delay = pos 0; max_delay = pos 0; max_wait = pos 0 }

-- 1 << 20
abbrev pub max_response_bytes : ℕ
max_response_bytes = 1_048_576

abbrev pub package_error : Text → Text → ℕ → Option Sentinel → Error → Error
package_error op endpoint status legacy cause =
    api
      (record {
        operation = op;
        method = text "POST";
        endpoint = endpoint;
        status_code = status;
        content_type = text "";
        kind = Kind.validation;
        retryable = false;
        retry_after = pos 0;
        body_size = 0;
        limit = 0;
        legacy = legacy;
      })
      cause

abbrev pub request_to : Url → Request
request_to u = record { method = post; url = some u; has_body = true }

abbrev pub is_present : Option Text → Bool
is_present none = false
is_present (some s) = not (is_empty s)

abbrev pub value_of : Option Text → Text
value_of none = text ""
value_of (some s) = s

-- What Login returns: a session, a challenge and an error.
abbrev pub LoginReply : Type 0
LoginReply = Session × (Option TotpChallenge × Error)

abbrev pub refused : Error → LoginReply
refused e = (no_session, (none, e))

abbrev pub login_operation : Text
login_operation = text "auth: login"

bad_reply : Text → Text → LoginReply
bad_reply endpoint why = refused (
    package_error login_operation endpoint 200 (some Sentinel.auth_invalid_reply)
      (fault Fault.other why))

session_of : Text → LoginResponse → LoginReply
unfolding bad_reply
session_of endpoint r =
    if not (
      is_present r.session_key
      && is_present r.session_signature
      && is_present r.uid
      && is_present r.player_name)
    then bad_reply endpoint (text "valid session reply is missing required fields")
    else (
      record {
        session_key = value_of r.session_key;
        session_signature = value_of r.session_signature;
        uid = value_of r.uid;
        player_name = value_of r.player_name;
      },
      (none, nil),
    )

challenge_of : Text → LoginResponse → LoginReply
unfolding bad_reply
challenge_of endpoint r =
    if not (is_present r.pre_login_token)
    then bad_reply endpoint (text "totp challenge is missing the pre-login token")
    else (
      no_session,
      (
        some (record { pre_login_token = value_of r.pre_login_token }),
        sentinel Sentinel.auth_totp_required,
      ),
    )

-- The switch over the reason.
refusal_of : Text → LoginResponse → Text → LoginReply
unfolding challenge_of
refusal_of endpoint r reason =
    if eq_text reason (text "requiretotpcode")
    then challenge_of endpoint r
    else if eq_text reason (text "invalidemailorpassword")
        || eq_text reason (text "invalidtotpcode")
    then refused (sentinel Sentinel.auth_invalid_credentials)
    else if eq_text reason (text "ipchanged")
    then refused (sentinel Sentinel.auth_ip_changed)
    else if eq_text reason (text "temporarilyblocked")
    then refused (sentinel Sentinel.auth_temporarily_blocked)
    else refused (sentinel Sentinel.auth_unknown)

login_reply : Text → Option (Result LoginResponse) → Option LoginReply
unfolding session_of refusal_of legacy
login_reply endpoint none = none
login_reply endpoint (some (err e)) = some (refused (legacy e))
login_reply endpoint (some (ok r)) = some (
    if r.valid
    then session_of endpoint r
    else refusal_of endpoint r (to_lower (trim_space (value_of r.reason))))

unfoldable pub login_form : (email password totp_code pre_login_token : Text) → Form
login_form email password totp_code pre_login_token =
    let base = (text "email", email) ∷ (text "password", password) ∷ [] in
    if not (is_empty totp_code) || not (is_empty pre_login_token)
    then base ++ (text "totpcode", totp_code) ∷ (text "prelogintoken", pre_login_token) ∷ []
    else base

unfoldable pub validate_form : (uid session_key : Text) → Form
validate_form uid session_key = (text "uid", uid) ∷ (text "sessionkey", session_key) ∷ []

validate_reply : Option (Result Bool) → Option (Bool × Error)
unfolding legacy
validate_reply none = none
validate_reply (some (err e)) = some (false, legacy e)
validate_reply (some (ok v)) = some (v, nil)

module _ (env : Env) (c : Client) (server : Form → ℕ → Round) where
  -- func doJSON is Do without retries, CheckStatus and DecodeJSON; `none` is a panic.
  unfoldable pub login : (email password totp_code pre_login_token : Text) → Option LoginReply
  unfolding login_reply legacy login_form
  login email password totp_code pre_login_token = elim (env.resolve c.login_url) [
    | err e ↦ some (refused (legacy (package_error login_operation c.login_url 0 none e)))
    | ok u ↦ login_reply c.login_url (
        fetch_json env.until (env.unmarshal_login flexible_bool) no_retry login_operation
          (request_to u) max_response_bytes
          (server (login_form email password totp_code pre_login_token)))
  ]

  -- func Validate
  unfoldable pub validate : (uid session_key : Text) → Option (Bool × Error)
  unfolding validate_reply legacy validate_form
  validate uid session_key = elim (env.resolve c.validate_url) [
    | err e ↦
        some (false, legacy (package_error (text "auth: validate session") c.validate_url 0 none e))
    | ok u ↦ validate_reply (
        fetch_json env.until (env.unmarshal_validate flexible_bool) no_retry
          (text "auth: validate session") (request_to u) max_response_bytes
          (server (validate_form uid session_key)))
  ]
