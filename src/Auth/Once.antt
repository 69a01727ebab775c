-- ===== src/Auth/Once.antt =====
-- auth/client.go Login and Validate: the requests that they send.
use vintagestory_go.Base.{
  ℕ, Bool, false, [], ◌≡◌, ◌≢◌, refl, ap, ◌∙◌, sym, Option, none, some, Text, text, arith,
}
use vintagestory_go.Base.Int.{ℤ}
use vintagestory_go.Vshttp.Errors.{Error}
use vintagestory_go.Vshttp.Request.{Url, Request, Response}
use vintagestory_go.Vshttp.Do.{Round, Run, Next, stop, again, exchange, is_idempotent}
use vintagestory_go.Vshttp.Do.Once.{run_once, do_request_once}
use vintagestory_go.Vshttp.Json.{Decoded, Result, ok, err, outcome, check_and_decode, fetch_json}
use vintagestory_go.Auth.{
  LoginResponse, Client, Form, Env, login_reply, login_form, login, validate_reply, validate_form,
  validate, request_to, no_retry, max_response_bytes, flexible_bool, login_operation,
}

-- What a call returns, for its result on one server and on another: the same, and no panic.
abbrev pub IsFromOne {ℓ} : {A : Type ℓ} → Option A → Option A → Type ℓ
IsFromOne o o' = (o ≡ o') × (o ≢ none)

run_once-outcome :
    (until : Text → Option ℤ) (op : Text) (req : Request) (max : ℕ) (r : Round)
    → outcome (run_once until op req max r) ≢ none
unfolding outcome
run_once-outcome until op req max r = go (exchange until op req max false r.ctx_err r.reply)
  where
    go :
        (n : Next)
        → outcome (elim n [
          | stop reply e ↦ Run.returned reply e 1 []
          | again i e ↦ Run.returned none (Error.api i e) 1 []
        ])
          ≢ none
    go (stop none e) h = ground (arith, h)
    go (stop (some reply) e) h = ground (arith, h)
    go (again i e) h = ground (arith, h)

module _ {ℓ} {A : Type ℓ} (until : Text → Option ℤ) (unmarshal : Text → Decoded A) (op : Text)
    (u : Url) where
  -- A post without retries.
  abbrev post_json : (ℕ → Round) → Option (Result A)
  post_json rounds = fetch_json until unmarshal no_retry op (request_to u) max_response_bytes rounds

  of_run : Run → Option (Result A)
  of_run run = elim (outcome run) [
    | none ↦ none
    | some reply ↦ some (check_and_decode until unmarshal op (request_to u) reply)
  ]

  -- The same for the run of one round.
  abbrev post_first : Round → Option (Result A)
  post_first r = of_run (run_once until op (request_to u) max_response_bytes r)

  post_json-first : (rounds : ℕ → Round) → post_json rounds ≡ post_first (rounds 0)
  unfolding fetch_json of_run
  post_json-first rounds = ap of_run (
      do_request_once until no_retry op (request_to u) max_response_bytes rounds
        (unfold is_idempotent in refl))

  post_first_present : (r : Round) → post_first r ≢ none
  unfolding of_run
  post_first_present r =
      go (outcome (run_once until op (request_to u) max_response_bytes r))
        (run_once-outcome until op (request_to u) max_response_bytes r)
    where
      go :
          (o : Option (Result (Response × Text)))
          → o ≢ none
          → elim o [
            | none ↦ none
            | some reply ↦ some (check_and_decode until unmarshal op (request_to u) reply)
          ]
            ≢ none
      go none n h = n refl
      go (some reply) n h = ground (arith, h)

  post_json-IsFromOne :
      (rounds rounds' : ℕ → Round)
      → rounds 0 ≡ rounds' 0
      → IsFromOne (post_json rounds) (post_json rounds')
  post_json-IsFromOne rounds rounds' same = (
    post_json-first rounds ∙ ap post_first same ∙ sym (post_json-first rounds'),
    λ h. post_first_present (rounds 0) (sym (post_json-first rounds) ∙ h),
  )

login_reply-IsFromOne :
    (endpoint : Text) (o o' : Option (Result LoginResponse))
    → IsFromOne o o'
    → IsFromOne (login_reply endpoint o) (login_reply endpoint o')
unfolding login_reply
login_reply-IsFromOne endpoint none o' (e, n) = absurd (n refl)
login_reply-IsFromOne endpoint (some (err e)) o' (k, n) =
    (ap (login_reply endpoint) k, λ h. ground (arith, h))
login_reply-IsFromOne endpoint (some (ok r)) o' (k, n) =
    (ap (login_reply endpoint) k, λ h. ground (arith, h))

validate_reply-IsFromOne :
    (o o' : Option (Result Bool))
    → IsFromOne o o'
    → IsFromOne (validate_reply o) (validate_reply o')
unfolding validate_reply
validate_reply-IsFromOne none o' (e, n) = absurd (n refl)
validate_reply-IsFromOne (some (err e)) o' (k, n) = (ap validate_reply k, λ h. ground (arith, h))
validate_reply-IsFromOne (some (ok v)) o' (k, n) = (ap validate_reply k, λ h. ground (arith, h))

module _ (env : Env) (c : Client) (server server' : Form → ℕ → Round)
    (same : (f : Form) → server f 0 ≡ server' f 0) where
  login-IsFromOne :
      (email password totp_code pre_login_token : Text)
      → IsFromOne
          (login env c server email password totp_code pre_login_token)
          (login env c server' email password totp_code pre_login_token)
  unfolding login
  login-IsFromOne email password totp_code pre_login_token = go (env.resolve c.login_url) refl
    where
      go :
          (o : Result Url)
          → env.resolve c.login_url ≡ o
          → IsFromOne
              (login env c server email password totp_code pre_login_token)
              (login env c server' email password totp_code pre_login_token)
      go (err x) e = rw (login, e) (refl, λ h. ground (arith, h))
      go (ok u) e =
          rw (login, e)
            (login_reply-IsFromOne c.login_url _ _ (
              post_json-IsFromOne env.until (env.unmarshal_login flexible_bool) login_operation u _
                _ (same (login_form email password totp_code pre_login_token))))

  validate-IsFromOne :
      (uid session_key : Text)
      → IsFromOne (validate env c server uid session_key) (validate env c server' uid session_key)
  unfolding validate
  validate-IsFromOne uid session_key = go (env.resolve c.validate_url) refl
    where
      go :
          (o : Result Url)
          → env.resolve c.validate_url ≡ o
          → IsFromOne
              (validate env c server uid session_key)
              (validate env c server' uid session_key)
      go (err x) e = rw (validate, e) (refl, λ h. ground (arith, h))
      go (ok u) e =
          rw (validate, e)
            (validate_reply-IsFromOne _ _ (
              post_json-IsFromOne env.until (env.unmarshal_validate flexible_bool)
                (text "auth: validate session") u _ _ (same (validate_form uid session_key))))

  -- If two servers answer the first request of every form alike, Login and Validate return the same
  -- on both, and neither panics: no call depends on a second attempt.
  pub calls-IsFromOne :
      (email password totp_code pre_login_token uid session_key : Text)
      → IsFromOne
          (login env c server email password totp_code pre_login_token)
          (login env c server' email password totp_code pre_login_token)
        × IsFromOne (validate env c server uid session_key) (validate env c server' uid session_key)
  calls-IsFromOne email password totp_code pre_login_token uid session_key =
      (login-IsFromOne email password totp_code pre_login_token, validate-IsFromOne uid session_key)
