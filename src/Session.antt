-- ===== src/Session.antt =====
-- Running a request and reading its response: prv_kii_thing_if_json_read_object,
-- prv_execute_http_session and prv_thing_if_parse_onboarding_response.
pub mod Verdict
use thing_if_thing_sdk.Prelude.{
  Bool, true, false, not, ◌&&◌, Bytes, codes, length, ℕ, ℤ, pos, minus_one, nonzero, at_least, zero,
  List, [], ◌∷◌, Option, none, some, get_elem?, if◌then◌else◌,
}
use thing_if_thing_sdk.Flow.{Outcome, done, aborted, Run, pure, gets, ◌>>=◌, ◌>>◌}
use thing_if_thing_sdk.Kii.{
  Kii, Sdk, Author, Field, FieldType, field_string, FieldResult, ParseResult, success,
  partial_success, root_type_error, invalid_input, HttpError, http_none, http_insufficient_buffer,
  http_socket, http_invalid_response,
}
use thing_if_thing_sdk.Context.{
  Context, ErrorInfo, call, set_error, set_author, on_error, error_code_size, assert_fails,
  insufficient_buffer, socket, http, invalid_payload,
}

-- `retval == KII_JSON_PARSE_SUCCESS`
abbrev pub is_success : ParseResult → Bool
is_success success = true
is_success partial_success = false
is_success root_type_error = false
is_success invalid_input = false

-- The text at the destination of field `i` after the parser ran; `old` was there before.
abbrev pub copied_text : List Field → ℕ → Bytes → Bytes
copied_text fields i old = elim (get_elem? fields i) [
  | none ↦ old
  | some f ↦ elim f.field_copy [ none ↦ old | some text ↦ text ]
]

-- 200 <= code < 300
abbrev pub is_ok_status : ℤ → Bool
is_ok_status code = at_least 200 code && not (at_least 300 code)

module _ {I W : Type 0} (sdk : Sdk I W) where
  -- A field after memset, with its path, its type and its destination filled in.
  abbrev pub field_by_path : Bytes → FieldType → Option Bytes → ℕ → Field
  field_by_path path type field_copy size = record {
    name = none;
    path = some path;
    type = type;
    field_copy = field_copy;
    field_copy_buff_size = size;
    result = sdk.zeroed_result;
    start = 0;
    end = 0;
  }

  abbrev pub field_by_name : Bytes → FieldType → Option Bytes → ℕ → Field
  field_by_name name type field_copy size = record {
    name = some name;
    path = none;
    type = type;
    field_copy = field_copy;
    field_copy_buff_size = size;
    result = sdk.zeroed_result;
    start = 0;
    end = 0;
  }

  -- The array of fields is given without its terminator and comes back as the parser left it.
  unfoldable pub prv_kii_thing_if_json_read_object :
      Bytes → List Field → Run (Context I W) (ParseResult × List Field)
  prv_kii_thing_if_json_read_object json_string fields c =
      let (r, tokens, fs) =
        sdk.kii_json_read_object c.kii.tokens json_string (length json_string) fields in
      done (r, fs) (record c { kii = record c.kii { tokens = tokens } })

  -- The body of `if (error != NULL)` where kii_api_call_run fails.
  abbrev run_error : HttpError → Run (Context I W) (Unit {0})
  run_error http_none = set_error insufficient_buffer
  run_error http_insufficient_buffer = set_error insufficient_buffer
  run_error http_socket = set_error socket
  run_error http_invalid_response = assert_fails sdk.noassert

  -- The body of `if (error != NULL)` at a status that is no success.
  abbrev status_error : ErrorInfo → Run (Context I W) (Unit {0})
  status_error e c =
      let fields =
        field_by_path (codes "/errorCode") field_string (some e.error_code) error_code_size ∷ [] in
      let (r, tokens, fs) =
        sdk.kii_json_read_object c.kii.tokens c.kii.response_body (length c.kii.response_body)
          fields in
      done tt (record c {
        kii = record c.kii { tokens = tokens };
        error = some (record {
          code = http;
          http_status_code = c.kii.response_code;
          error_code = copied_text fs 0 e.error_code;
        });
      })

  abbrev when_error : (ErrorInfo → Run (Context I W) (Unit {0})) → Run (Context I W) (Unit {0})
  when_error body c = elim c.error [ none ↦ done tt c | some e ↦ body e c ]

  unfoldable pub prv_execute_http_session : Run (Context I W) Bool
  prv_execute_http_session = do
    retval ← call sdk.kii_api_call_run
    if nonzero retval
        then (do
          http_error ← gets (λ c. c.kii.http_context.http_error)
          when_error (λ _. run_error http_error)
          pure false)
        else (do
          response_code ← gets (λ c. c.kii.response_code)
          if is_ok_status response_code
              then pure true
              else (do when_error status_error; pure false))

  unfoldable pub prv_thing_if_parse_onboarding_response : Run (Context I W) ℤ
  prv_thing_if_parse_onboarding_response = do
    author ← gets (λ c. c.kii.author)
    response_body ← gets (λ c. c.kii.response_body)
    (r, fields) ← prv_kii_thing_if_json_read_object response_body (
        field_by_name (codes "thingID") field_string (some author.author_id) sdk.author_id_size
        ∷ field_by_name (codes "accessToken") field_string (some author.access_token)
            sdk.access_token_size
        ∷ [])
    set_author (record {
      author_id = copied_text fields 0 author.author_id;
      access_token = copied_text fields 1 author.access_token;
    })
    if is_success r then pure (pos 0) else (do set_error invalid_payload; pure minus_one)
