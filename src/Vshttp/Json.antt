-- ===== src/Vshttp/Json.antt =====
-- vshttp/do.go: DecodeJSON and FetchJSON, with json.Unmarshal as a parameter.
pub mod Laws
use vintagestory_go.Base.{
  ℕ, Bool, true, false, ◌||◌, Option, none, some, Text, text, is_empty, length, if◌then◌else◌,
}
use vintagestory_go.Base.Int.{ℤ}
use vintagestory_go.Base.Strings.{trim_space}
use vintagestory_go.Vshttp.Errors.{
  Kind, Sentinel, Fault, syntax, other, Error, nil, fault, api, is, has_fault,
}
use vintagestory_go.Vshttp.Request.{Request, Response}
use vintagestory_go.Vshttp.Retry.{RetryPolicy}
use vintagestory_go.Vshttp.Status.{response_info, check_status}
use vintagestory_go.Vshttp.Do.{Round, Run, panicked, returned, do_request}

-- json.Unmarshal as a parameter: the value, or the error of the decoder.
pub data Decoded {ℓ} (A : Type ℓ) : Type ℓ where
  decoded : A → Decoded A
  undecoded : Error → Decoded A

abbrev is_syntax : Fault → Bool
is_syntax syntax = true
is_syntax _ = false

-- The result of a call: Go returns a value and an error, of which one is set.
pub data Result {ℓ} (A : Type ℓ) : Type ℓ where
  ok : A → Result A
  err : Error → Result A

decode_error : Text → Request → Response → Text → Error → Error
decode_error op req resp content e =
    api
      (record (response_info op req resp
        (if has_fault is_syntax e || is e Sentinel.unexpected_eof
          then Kind.invalid_json
          else Kind.invalid_response)
        false) { body_size = length content })
      e

decode_result {ℓ} : {A : Type ℓ} → Text → Request → Response → Text → Decoded A → Result A
unfolding decode_error
decode_result op req resp content (decoded a) = ok a
decode_result op req resp content (undecoded e) = err (decode_error op req resp content e)

-- func DecodeJSON
unfoldable pub decode_json {ℓ} :
    {A : Type ℓ} → (Text → Decoded A) → Text → Request → Response → Text → Result A
unfolding decode_result
decode_json unmarshal op req resp content =
    if is_empty (trim_space content)
    then err (
        api (response_info op req resp Kind.invalid_response false)
          (fault other (text "empty response body")))
    else decode_result op req resp content (unmarshal content)

-- What Do returned, or `none` if it panicked.
unfoldable pub outcome : Run → Option (Result (Response × Text))
outcome (panicked n) = none
outcome (returned (some r) e n ds) = some (ok r)
outcome (returned none e n ds) = some (err e)

checked {ℓ} :
    {A : Type ℓ}
    → (Text → Option ℤ)
    → (Text → Decoded A)
    → Text
    → Request
    → Response
    → Text
    → Error
    → Result A
unfolding decode_json
checked until unmarshal op req resp content nil = decode_json unmarshal op req resp content
checked until unmarshal op req resp content e = err e

-- FetchJSON after Do, and the part that the clients write out: CheckStatus, then DecodeJSON.
unfoldable pub check_and_decode {ℓ} :
    {A : Type ℓ}
    → (Text → Option ℤ)
    → (Text → Decoded A)
    → Text
    → Request
    → Result (Response × Text)
    → Result A
unfolding checked
check_and_decode until unmarshal op req (err e) = err e
check_and_decode until unmarshal op req (ok (resp, content)) =
    checked until unmarshal op req resp content (check_status until op req resp)

-- func FetchJSON; `none` is a panic.
unfoldable pub fetch_json {ℓ} :
    {A : Type ℓ}
    → (Text → Option ℤ)
    → (Text → Decoded A)
    → RetryPolicy
    → Text
    → Request
    → ℕ
    → (ℕ → Round)
    → Option (Result A)
unfolding do_request outcome check_and_decode
fetch_json until unmarshal policy op req max rounds =
    elim (outcome (do_request until policy op req max rounds)) [
      | none ↦ none
      | some r ↦ some (check_and_decode until unmarshal op req r)
    ]
