-- ===== src/Session/Verdict.antt =====
-- How prv_execute_http_session judges a request, on every branch.
use thing_if_thing_sdk.Prelude.{
  Bool, true, false, ℤ, pos, negsuc, nonzero, Option, none, some, ◌≡◌, ◌≤◌, ◌<◌, ◌⊎◌, ◌≢◌, arith,
}
use thing_if_thing_sdk.Flow.{Resolves}
use thing_if_thing_sdk.Kii.{
  Kii, Sdk, HttpError, http_none, http_insufficient_buffer, http_socket, http_invalid_response,
}
use thing_if_thing_sdk.Context.{Context, ErrorInfo, ErrorCode, http, socket, insufficient_buffer}
use thing_if_thing_sdk.Session.{is_ok_status, prv_execute_http_session}

-- A status that HTTP counts as a success.
abbrev pub InSuccess : ℤ → Type 0
InSuccess (pos n) = (200 ≤ n) × (n < 300)
InSuccess (negsuc n) = ⊥

-- The error that a caller without a NULL pointer finds after a status that is none.
abbrev HttpReported : Option ErrorInfo → ℤ → Option ErrorInfo → Type 0
HttpReported none status e = e ≡ none
HttpReported (some old) status none = ⊥
HttpReported (some old) status (some e) = (e.code ≡ http) × (e.http_status_code ≡ status)

-- What a failed kii_api_call_run is reported as; the other fields stay.
abbrev code_of : HttpError → ErrorCode
code_of http_none = insufficient_buffer
code_of http_insufficient_buffer = insufficient_buffer
code_of http_socket = socket
code_of http_invalid_response = insufficient_buffer

abbrev RunReported : Option ErrorInfo → HttpError → Option ErrorInfo → Type 0
RunReported none why e = e ≡ none
RunReported (some old) http_invalid_response e = e ≡ some old
RunReported (some old) why e = e ≡ some (record old { code = code_of why })

module _ {I W : Type 0} (sdk : Sdk I W) (c : Context I W) where
  -- The SDK's answer to kii_api_call_run, and the parts of it.
  abbrev answer : ℤ × Kii I W × W
  answer = sdk.kii_api_call_run c.kii c.world

  -- What the result `ok` and the context `t` say of the request.
  abbrev pub Judged : Bool → Context I W → Type 0
  Judged true t =
      (nonzero answer.0 ≡ false)
      × InSuccess answer.1.response_code
      × (t ≡ record c { kii = answer.1; world = answer.2 })
  Judged false t =
      ((nonzero answer.0 ≡ true)
        × (t.kii ≡ answer.1)
        × RunReported c.error answer.1.http_context.http_error t.error)
      ⊎ ((nonzero answer.0 ≡ false)
          × ¬ InSuccess answer.1.response_code
          × HttpReported c.error answer.1.response_code t.error)

  is_ok_status-InSuccess : (s : ℤ) → is_ok_status s ≡ true → InSuccess s
  is_ok_status-InSuccess (pos n) h = ground arith
  is_ok_status-InSuccess (negsuc n) h = cc

  is_ok_status-not : (s : ℤ) → is_ok_status s ≡ false → ¬ InSuccess s
  is_ok_status-not (pos n) h = λ p. ground arith
  is_ok_status-not (negsuc n) h = λ p. p

  -- The one case in which the assertion of the `default` branch fails.
  abbrev pub Unexpected : Type 0
  Unexpected =
      (nonzero answer.0 ≡ true)
      × (answer.1.http_context.http_error ≡ http_invalid_response)
      × (c.error ≢ none)
      × (sdk.noassert ≡ false)

  -- prv_execute_http_session returns KII_TRUE exactly where the request ran and its status is in 200
  -- to 299, and then changes nothing more. Else it returns KII_FALSE, with the reason in the
  -- error that the caller gave: HTTP and the status, a full buffer, or the socket. Where the SDK
  -- reports an invalid response it fails its assertion or, with assertions compiled out, leaves
  -- the error as it was. The HTTP status of the error is written only with the code HTTP: with the
  -- other codes it stays what it was.
  pub prv_execute_http_session-Judged : Resolves Judged Unexpected (prv_execute_http_session sdk c)
  unfolding prv_execute_http_session
  prv_execute_http_session-Judged = ground (
    arith,
    is_ok_status-InSuccess answer.1.response_code,
    is_ok_status-not answer.1.response_code,
  )
