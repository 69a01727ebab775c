-- ===== src/Auth/Laws.antt =====
-- auth/client.go Login: what each result means.
use vintagestory_go.Base.{
  ◌⊎◌, ℕ, ◌≡◌, refl, Bool, true, false, ◌&&◌, ◌||◌, Option, none, some, Text, text, is_empty,
  eq_text, eq_text_iff, if◌then◌else◌, Bool-cases, inl, inr, arith,
}
use vintagestory_go.Base.Strings.{trim_space, to_lower}
use vintagestory_go.Vshttp.Errors.{Error, nil, sentinel, is_nil, Sentinel}
use vintagestory_go.Vshttp.Request.{Url}
use vintagestory_go.Vshttp.Do.{Round}
use vintagestory_go.Vshttp.Json.{Result, ok, err, fetch_json}
use vintagestory_go.Vshttp.Json.Laws.{IsFetched, fetch_json-IsFetched, fetch_json-err}
use vintagestory_go.Vshttp.Legacy.{legacy_by-present}
use vintagestory_go.Auth.{
  legacy, package_error, flexible_bool, Session, no_session, TotpChallenge, LoginResponse, Client,
  Form, Env, no_retry, max_response_bytes, request_to, is_present, value_of, LoginReply, refused,
  login_operation, bad_reply, session_of, challenge_of, refusal_of, login_reply, login_form, login,
}

present_value :
    (o : Option Text)
    → is_present o ≡ true
    → (o ≡ some (value_of o)) × (is_empty (value_of o) ≡ false)
present_value none h = absurd (ground (arith, h))
present_value (some s) h = (refl, ground (arith, h))

-- A field of the reply that is there and not empty is what the session holds.
abbrev Holds : Option Text → Text → Type 0
Holds field value = (field ≡ some value) × (is_empty value ≡ false)

-- What a decoded reply gives.
pub data IsAnswer (r : LoginResponse) : LoginReply → Type 0 where
  granted :
      (s : Session)
      → r.valid ≡ true
      → Holds r.session_key s.session_key
      → Holds r.session_signature s.session_signature
      → Holds r.uid s.uid
      → Holds r.player_name s.player_name
      → IsAnswer r (s, (none, nil))
  challenged :
      (t : TotpChallenge)
      → r.valid ≡ false
      → to_lower (trim_space (value_of r.reason)) ≡ text "requiretotpcode"
      → Holds r.pre_login_token t.pre_login_token
      → IsAnswer r (no_session, (some t, sentinel Sentinel.auth_totp_required))
  incomplete :
      (e : Error)
      → is_nil e ≡ false
      → r.valid ≡ true
      → (is_present r.session_key
          && is_present r.session_signature
          && is_present r.uid
          && is_present r.player_name)
        ≡ false
      → IsAnswer r (no_session, (none, e))
  denied :
      (e : Error)
      → is_nil e ≡ false
      → r.valid ≡ false
      → (eq_text (to_lower (trim_space (value_of r.reason))) (text "requiretotpcode") ≡ false)
        ⊎ (is_present r.pre_login_token ≡ false)
      → IsAnswer r (no_session, (none, e))

session_of-IsAnswer :
    (endpoint : Text) (r : LoginResponse) → r.valid ≡ true → IsAnswer r (session_of endpoint r)
unfolding session_of bad_reply
session_of-IsAnswer endpoint r v =
    elim (Bool-cases (
      is_present r.session_key
      && is_present r.session_signature
      && is_present r.uid
      && is_present r.player_name)) [
        | inl e ↦ rw e (
            granted _ v (present_value r.session_key (ground (arith, e)))
              (present_value r.session_signature (ground (arith, e)))
              (present_value r.uid (ground (arith, e)))
              (present_value r.player_name (ground (arith, e))))
        | inr e ↦ rw e (incomplete _ refl v e)
      ]

denied_or :
    (r : LoginResponse) (b : Bool) (s : Sentinel) (reply : LoginReply)
    → r.valid ≡ false
    → eq_text (to_lower (trim_space (value_of r.reason))) (text "requiretotpcode") ≡ false
    → IsAnswer r reply
    → IsAnswer r (if b then refused (sentinel s) else reply)
denied_or r true s reply v n p = denied (sentinel s) refl v (inl n)
denied_or r false s reply v n p = p

refusal_of-IsAnswer :
    (endpoint : Text) (r : LoginResponse)
    → r.valid ≡ false
    → IsAnswer r (refusal_of endpoint r (to_lower (trim_space (value_of r.reason))))
unfolding refusal_of challenge_of bad_reply
refusal_of-IsAnswer endpoint r v =
    let reason = to_lower (trim_space (value_of r.reason)) in
    elim (Bool-cases (eq_text reason (text "requiretotpcode"))) [
      | inl e ↦ elim (Bool-cases (is_present r.pre_login_token)) [
        | inl p ↦
            rw (e, p)
              (challenged _ v ((eq_text_iff reason (text "requiretotpcode")).0 e)
                (present_value r.pre_login_token p))
        | inr p ↦ rw (e, p) (denied _ refl v (inr p))
      ]
      | inr e ↦ rw e (
          denied_or r
            (eq_text reason (text "invalidemailorpassword")
              || eq_text reason (text "invalidtotpcode"))
            Sentinel.auth_invalid_credentials _ v e
            (denied_or r (eq_text reason (text "ipchanged")) Sentinel.auth_ip_changed _ v e (
              denied_or r (eq_text reason (text "temporarilyblocked"))
                Sentinel.auth_temporarily_blocked _ v e
                (denied (sentinel Sentinel.auth_unknown) refl v (inl e)))))
    ]

legacy_present : (e : Error) → is_nil e ≡ false → is_nil (legacy e) ≡ false
unfolding legacy
legacy_present e h = legacy_by-present _ e h

module _ (env : Env) (c : Client) (server : Form → ℕ → Round) where
  -- What Login returns: the answer to a reply that was fetched for the form of the call, or an error
  -- with neither a session nor a challenge.
  pub data IsLogin (form : Form) : LoginReply → Type 0 where
    answered :
        {reply : LoginReply}
        → (u : Url) (r : LoginResponse) → env.resolve c.login_url ≡ ok u
        → IsFetched env.until
            (env.unmarshal_login flexible_bool)
            login_operation
            (request_to u)
            max_response_bytes
            (server form)
            r
        → IsAnswer r reply
        → IsLogin form reply
    unresolved :
        (x e : Error)
        → env.resolve c.login_url ≡ err x
        → is_nil e ≡ false
        → IsLogin form (no_session, (none, e))
    unfetched :
        (u : Url) (x e : Error)
        → env.resolve c.login_url ≡ ok u
        → fetch_json env.until
            (env.unmarshal_login flexible_bool)
            no_retry
            login_operation
            (request_to u)
            max_response_bytes
            (server form)
          ≡ some (err x)
        → is_nil e ≡ false
        → IsLogin form (no_session, (none, e))

  login_reply-IsLogin :
      (form : Form) (u : Url) (o : Option (Result LoginResponse)) (reply : LoginReply)
      → env.resolve c.login_url ≡ ok u
      → fetch_json env.until
          (env.unmarshal_login flexible_bool)
          no_retry
          login_operation
          (request_to u)
          max_response_bytes
          (server form)
        ≡ o
      → login_reply c.login_url o ≡ some reply
      → IsLogin form reply
  unfolding login_reply
  login_reply-IsLogin form u none reply a f h = cc
  login_reply-IsLogin form u (some (err e)) reply a f h =
      let same : refused (legacy e) ≡ reply = ground (arith, h) in
      let present =
        fetch_json-err env.until (env.unmarshal_login flexible_bool) login_operation (request_to u)
          no_retry max_response_bytes (server form) e f in
      rw (← same) (unfetched u e (legacy e) a f (legacy_present e present))
  login_reply-IsLogin form u (some (ok r)) reply a f h =
      let got =
        fetch_json-IsFetched env.until (env.unmarshal_login flexible_bool) login_operation
          (request_to u) no_retry max_response_bytes (server form) r f in
      elim (Bool-cases r.valid) [
        | inl v ↦
            let same : session_of c.login_url r ≡ reply = ground (arith, h, v) in
            rw (← same) (answered u r a got (session_of-IsAnswer c.login_url r v))
        | inr v ↦
            let same : refusal_of c.login_url r (to_lower (trim_space (value_of r.reason)))
                ≡ reply =
              ground (arith, h, v) in
            rw (← same) (answered u r a got (refusal_of-IsAnswer c.login_url r v))
      ]

  -- Login returns a session, without an error, only for a fetched reply that is valid, and with the
  -- four fields of the reply, none of them empty; a challenge only with ErrTOTPRequired and no session,
  -- for a reply that is not valid, asks for a code and has a token; and else neither of them but an
  -- error that is not nil: if the address or the fetch failed, if a valid reply lacks a field, or if
  -- one that is not valid asks for no code or has no token.
  pub login-IsLogin :
      (email password totp_code pre_login_token : Text) (reply : LoginReply)
      → login env c server email password totp_code pre_login_token ≡ some reply
      → IsLogin (login_form email password totp_code pre_login_token) reply
  unfolding login
  login-IsLogin email password totp_code pre_login_token reply h = go (env.resolve c.login_url) refl
    where
      go :
          (o : Result Url)
          → env.resolve c.login_url ≡ o
          → IsLogin (login_form email password totp_code pre_login_token) reply
      go (err e) k =
          let h' = rw (login, k) at h in
          let same : refused (legacy (package_error login_operation c.login_url 0 none e)) ≡ reply =
            ground (arith, h') in
          let error = package_error login_operation c.login_url 0 none e in
          rw (← same) (unresolved e (legacy error) k (legacy_present error refl))
      go (ok u) k =
          login_reply-IsLogin (login_form email password totp_code pre_login_token) u _ reply k refl
            (rw (login, k) at h)
