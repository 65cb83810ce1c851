-- ===== src/Attributes/Answers.antt =====
-- What get_firmware_version and get_thing_type answer once the thing is onboarded.
use thing_if_thing_sdk.Prelude.{
  Bool, true, false, Bytes, codes, length, ℕ, ◌<◌, ℤ, nonzero, List, [], ◌∷◌, Option, none, some,
  ◌≡◌, refl, ◌∙◌, arith, if◌then◌else◌,
}
use thing_if_thing_sdk.Flow.{Outcome, done, Run, pure, gets, bind_done, ◌>>=◌}
use thing_if_thing_sdk.Kii.{Kii, Sdk, ParseResult, success, Token, Field, field_string}
use thing_if_thing_sdk.Context.{
  Context, ErrorInfo, on_error, insufficient_arg_buffer, invalid_payload,
}
use thing_if_thing_sdk.Request.{prv_kii_api_call_start}
use thing_if_thing_sdk.ResourcePath.{
  firmware_version_part, thing_type_part, prv_set_firmware_version_resource_path,
  prv_set_thing_type_resource_path,
}
use thing_if_thing_sdk.ResourcePath.Bounds.{
  Builds-fits, prv_set_firmware_version_resource_path-Builds,
  prv_set_thing_type_resource_path-Builds,
}
use thing_if_thing_sdk.Session.{
  prv_execute_http_session, prv_kii_thing_if_json_read_object, field_by_path, is_success,
  copied_text,
}
use thing_if_thing_sdk.Thing.{Host, onboarded, command_context, on_command_handler}
use thing_if_thing_sdk.Attributes.{
  get_attribute, read_attribute, first_copy_failed, get_firmware_version, get_thing_type,
}
use thing_if_thing_sdk.Attributes.Sends.{attribute_path, when_onboarded_lem, on_command_handler-ap}

-- The caller's error after the parser's answer: a text that the caller's array does not hold, and
-- every other failure of the parser, have a code each.
abbrev pub answer_error : ParseResult → List Field → Option ErrorInfo → Option ErrorInfo
answer_error success fs e = e
answer_error r fs e =
    if first_copy_failed fs
    then on_error (λ i. record i { code = insufficient_arg_buffer }) e
    else on_error (λ i. record i { code = invalid_payload }) e

module _ {I W : Type 0} (sdk : Sdk I W) where
  -- The answer to the start of a GET of an attribute, and the context after it.
  abbrev pub get_start : Bytes → Context I W → ℤ × Kii I W × W
  get_start part c =
      sdk.kii_api_call_start (codes "GET") (attribute_path part c) none true c.kii c.world

  abbrev pub get_started : Bytes → Context I W → Context I W
  get_started part c = let (r, k, w) = get_start part c in record c { kii = k; world = w }

  -- The parser's answer to the request for the text at `path` in the response.
  abbrev pub parsed : Bytes → ℕ → Context I W → ParseResult × List Token × List Field
  parsed path size c =
      sdk.kii_json_read_object c.kii.tokens c.kii.response_body (length c.kii.response_body)
        (field_by_path sdk path field_string (some []) size ∷ [])

  -- What a get function returns for the session's result: KII_FALSE and the array as it was; or
  -- whether the parser succeeded, and the text that it copied.
  abbrev pub answer_of :
      Bool → Bytes → Bytes → ℕ → Context I W → Outcome (Context I W) (Bool × Bytes)
  answer_of false path text size c = done (false, text) c
  answer_of true path text size c =
      let (r, tokens, fs) = parsed path size c in
      done (is_success r, copied_text fs 0 [])
        (record c { kii = record c.kii { tokens = tokens }; error = answer_error r fs c.error })

  read_attribute_lem :
      (path text : Bytes) (size : ℕ) (c : Context I W)
      → read_attribute sdk path size c ≡ answer_of true path text size c
  unfolding read_attribute prv_kii_thing_if_json_read_object
  read_attribute_lem path text size c = ground arith

  -- What both functions do in the state ONBOARDED.
  abbrev version_run : Bytes → ℕ → Run (Context I W) (Bool × Bytes)
  version_run text size = do
    app_id ← gets (λ c. c.kii.app_id)
    author ← gets (λ c. c.kii.author)
    path ← prv_set_firmware_version_resource_path sdk.noassert app_id author.author_id 128
    get_attribute sdk path (codes "/firmwareVersion") text size

  abbrev type_run : Bytes → ℕ → Run (Context I W) (Bool × Bytes)
  type_run text size = do
    app_id ← gets (λ c. c.kii.app_id)
    author ← gets (λ c. c.kii.author)
    path ← prv_set_thing_type_resource_path sdk.noassert app_id author.author_id 128
    get_attribute sdk path (codes "/thingType") text size

  module _ (part path text : Bytes) (size : ℕ) (c c3 : Context I W) (ok : Bool) where
    start_lem :
        nonzero (get_start part c).0 ≡ false
        → prv_kii_api_call_start sdk (codes "GET") (attribute_path part c) none true c
          ≡ done (get_start part c).0 (get_started part c)
    unfolding prv_kii_api_call_start
    start_lem started = rw started refl

    get_attribute-answers :
        nonzero (get_start part c).0 ≡ false
        → prv_execute_http_session sdk (get_started part c) ≡ done ok c3
        → get_attribute sdk (some (attribute_path part c)) path text size c
          ≡ answer_of ok path text size c3
    unfolding get_attribute
    get_attribute-answers started session =
        bind_done (prv_kii_api_call_start sdk (codes "GET") (attribute_path part c) none true) _
          (start_lem started)
        ∙ rw started (
            bind_done (prv_execute_http_session sdk)
              (λ succeeded. if succeeded then read_attribute sdk path size else pure (false, text))
              session
            ∙ by_result ok)
      where
        by_result :
            (b : Bool)
            → ◌≡◌ {A = Outcome (Context I W) (Bool × Bytes)}
                ((if b then read_attribute sdk path size else pure (false, text)) c3)
                (answer_of b path text size c3)
        by_result true = read_attribute_lem path text size c3
        by_result false = refl

module _ {I W : Type 0} (sdk : Sdk I W) (h : Host I W) (in_state : h.thing.state ≡ onboarded)
    (text : Bytes) (size : ℕ) (c3 : Context I W) (ok : Bool) where
  -- In the state ONBOARDED, where the path fits and the request starts and its session returns,
  -- get_firmware_version leaves the caller's array as it was and returns KII_FALSE if the session
  -- failed; else the array holds what the parser copied from the response, and the result is whether
  -- the parser succeeded, with INSUFFICIENT_ARG_BUFFER for a text that the array does not hold and
  -- INVALID_PAYLOAD for any other response; these two change only the code of the caller's error.
  pub get_firmware_version-answers :
      length (attribute_path firmware_version_part (command_context h)) < 128
      → nonzero (get_start sdk firmware_version_part (command_context h)).0 ≡ false
      → prv_execute_http_session sdk (get_started sdk firmware_version_part (command_context h))
        ≡ done ok c3
      → get_firmware_version sdk text size h
        ≡ on_command_handler (λ _. answer_of sdk ok (codes "/firmwareVersion") text size c3) h
  unfolding get_firmware_version
  get_firmware_version-answers fits started session =
      let c = command_context h in
      let built =
        Builds-fits sdk.noassert 128 (attribute_path firmware_version_part c)
          (prv_set_firmware_version_resource_path-Builds sdk.noassert c.kii.app_id 128
            c.kii.author.author_id (omega arith) c)
          fits in
      when_onboarded_lem sdk h (false, text) (version_run sdk text size) h.thing.state in_state
      ∙ on_command_handler-ap h (version_run sdk text size)
          (λ _. answer_of sdk ok (codes "/firmwareVersion") text size c3)
          (bind_done
              (prv_set_firmware_version_resource_path sdk.noassert c.kii.app_id
                c.kii.author.author_id 128)
              (λ p. get_attribute sdk p (codes "/firmwareVersion") text size) built
            ∙ get_attribute-answers sdk firmware_version_part (codes "/firmwareVersion") text size c
                c3 ok started session)

  -- In the state ONBOARDED, where the path fits and the request starts and its session returns,
  -- get_thing_type leaves the caller's array as it was and returns KII_FALSE if the session failed;
  -- else the array holds what the parser copied from the response, and the result is whether the
  -- parser succeeded, with INSUFFICIENT_ARG_BUFFER for a text that the array does not hold and
  -- INVALID_PAYLOAD for any other response; these two change only the code of the caller's error.
  pub get_thing_type-answers :
      length (attribute_path thing_type_part (command_context h)) < 128
      → nonzero (get_start sdk thing_type_part (command_context h)).0 ≡ false
      → prv_execute_http_session sdk (get_started sdk thing_type_part (command_context h))
        ≡ done ok c3
      → get_thing_type sdk text size h
        ≡ on_command_handler (λ _. answer_of sdk ok (codes "/thingType") text size c3) h
  unfolding get_thing_type
  get_thing_type-answers fits started session =
      let c = command_context h in
      let built =
        Builds-fits sdk.noassert 128 (attribute_path thing_type_part c)
          (prv_set_thing_type_resource_path-Builds sdk.noassert c.kii.app_id 128
            c.kii.author.author_id (omega arith) c)
          fits in
      when_onboarded_lem sdk h (false, text) (type_run sdk text size) h.thing.state in_state
      ∙ on_command_handler-ap h (type_run sdk text size)
          (λ _. answer_of sdk ok (codes "/thingType") text size c3)
          (bind_done
              (prv_set_thing_type_resource_path sdk.noassert c.kii.app_id c.kii.author.author_id
                128)
              (λ p. get_attribute sdk p (codes "/thingType") text size) built
            ∙ get_attribute-answers sdk thing_type_part (codes "/thingType") text size c c3 ok
                started session)
