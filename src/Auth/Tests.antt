-- ===== src/Auth/Tests.antt =====
-- Runs of package auth.
use vintagestory_go.Base.{ℕ, zero, suc, ◌≡◌, refl, true, false, none, some, text, eq_text}
use vintagestory_go.Base.Strings.{trim_space, to_lower, atoi}
use vintagestory_go.Vshttp.Errors.{Sentinel, nil, sentinel, is, has_fault}
use vintagestory_go.Vshttp.Request.{Url}
use vintagestory_go.Vshttp.Retry.{normalize, backoff}
use vintagestory_go.Vshttp.Status.{
  classify, transport_error, retryable_status, status_error, parse_retry_after, check_status,
}
use vintagestory_go.Vshttp.Do.{Round, failed, answered, do_request, read_body, is_idempotent}
use vintagestory_go.Vshttp.Json.{decoded, ok, decode_json, fetch_json}
use vintagestory_go.Auth.{
  legacy, flexible_bool, no_session, LoginResponse, Client, Form, Env, LoginReply, login_form,
  login, validate,
}
use vintagestory_go.Auth.Laws.{IsLogin, login-IsLogin}
use vintagestory_go.Auth.Once.{IsFromOne, calls-IsFromOne}

quoted_true : flexible_bool (text " \"True\"") ≡ some true
unfolding flexible_bool trim_space to_lower eq_text
quoted_true = refl

no_number : flexible_bool (text "2") ≡ none
unfolding flexible_bool trim_space to_lower eq_text
no_number = refl

abbrev auth_url : Url
auth_url = record {
  scheme = text "https";
  user = none;
  host = text "auth.example";
  path = text "/login";
  raw_query = text "";
  fragment = text "";
}

-- The reply to a login without a code.
abbrev asks_code : LoginResponse
asks_code = record {
  session_key = none;
  session_signature = none;
  uid = none;
  player_name = none;
  valid = false;
  pre_login_token = some (text "tok");
  reason = some (text "RequireTotpCode");
}

abbrev env : Env
env = record {
  until = λ v. none;
  resolve = λ e. ok auth_url;
  unmarshal_login = λ read b. decoded asks_code;
  unmarshal_validate = λ read b. decoded true;
}

abbrev client : Client
client = record {
  login_url = text "https://auth.example/login";
  validate_url = text "https://auth.example/validate";
}

abbrev server : Form → ℕ → Round
server form k = record {
  dice = 0;
  interrupt = none;
  reply = answered (record {
    status_code = 200;
    status = text "";
    content_type = text "";
    retry_after = text "";
    content = text "{}";
    fault = nil;
  });
  ctx_err = nil;
}

-- What the calls compute with.
calling : Unit {0}
unfolding do_request transport_error classify is has_fault backoff normalize read_body
    retryable_status status_error parse_retry_after atoi fetch_json check_status decode_json
    trim_space to_lower login validate legacy is_idempotent eq_text
calling = tt

abbrev challenge : LoginReply
challenge = (
  no_session,
  (some (record { pre_login_token = text "tok" }), sentinel Sentinel.auth_totp_required),
)

challenged_run :
    login env client server (text "a@b") (text "pw") (text "") (text "") ≡ some challenge
unfolding calling
challenged_run = refl

validated : validate env client server (text "u1") (text "key") ≡ some (true, nil)
unfolding calling
validated = refl

login-IsLogin_example :
    IsLogin env client server (login_form (text "a@b") (text "pw") (text "") (text "")) challenge
login-IsLogin_example =
    login-IsLogin env client server (text "a@b") (text "pw") (text "") (text "") challenge
      challenged_run

-- A server that breaks off after the first request.
abbrev breaking : Form → ℕ → Round
breaking form zero = server form 0
breaking form (suc k) = record {
  dice = 1;
  interrupt = some (sentinel Sentinel.canceled);
  reply = failed (sentinel Sentinel.unexpected_eof);
  ctx_err = sentinel Sentinel.canceled;
}

calls-IsFromOne_example :
    IsFromOne
      (login env client server (text "a@b") (text "pw") (text "") (text ""))
      (login env client breaking (text "a@b") (text "pw") (text "") (text ""))
    × IsFromOne
        (validate env client server (text "u1") (text "key"))
        (validate env client breaking (text "u1") (text "key"))
calls-IsFromOne_example =
    calls-IsFromOne env client server breaking (λ f. refl) (text "a@b") (text "pw") (text "")
      (text "") (text "u1") (text "key")
