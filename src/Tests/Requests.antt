-- ===== src/Tests/Requests.antt =====
-- Requests against the test server.
use thing_if_thing_sdk.Prelude.{false, Bytes, codes, pos, ◌∷◌, none, some, ◌≡◌, refl, arith}
use thing_if_thing_sdk.Flow.{done, Resolves}
use thing_if_thing_sdk.Kii.{Sdk}
use thing_if_thing_sdk.Context.{Context}
use thing_if_thing_sdk.Thing.{StateHandler}
use thing_if_thing_sdk.Request.{
  append_body, prv_append_key_value, prv_append_key_value_string, prv_writer,
}
use thing_if_thing_sdk.Request.Writes.{Tests}
use thing_if_thing_sdk.ResourcePath.{
  prv_set_onboard_resource_path, prv_set_state_resource_path,
  prv_set_firmware_version_resource_path, prv_set_thing_type_resource_path,
}
use thing_if_thing_sdk.ResourcePath.Bounds.{Builds, resource_paths-Builds}
use thing_if_thing_sdk.Session.{prv_execute_http_session, prv_kii_thing_if_json_read_object}
use thing_if_thing_sdk.Session.Verdict.{Judged, Unexpected, prv_execute_http_session-Judged}
use thing_if_thing_sdk.Onboard.{
  OnboardOptions, onboard_body_fails, token_body_fails, prv_kii_thing_if_get_anonymous_token,
  prv_onboard_with_vendor_thing_id, prv_onboard_with_thing_id, content_type_vendor_thing_id,
  content_type_thing_id,
}
use thing_if_thing_sdk.Onboard.Bodies.{bodies-Tests}
use thing_if_thing_sdk.Onboard.Failures.{
  start_failure, body_overflow, after_start, with_error, rest_by_thing_id,
}
use thing_if_thing_sdk.Report.{prv_update_status, delay_of}
use thing_if_thing_sdk.Report.Task.{Rounds, Steady, prv_update_status-Returns}
use thing_if_thing_sdk.Tests.Server.{
  kii, Draft, Log, sdk, sdk_with, buffering, context, state_after,
}

abbrev options : OnboardOptions
options = record {
  thing_type = some (codes "lamp");
  firmware_version = none;
  layout_position = none;
  thing_properties = some (codes "{\"a\":1}");
}

bodies-Tests_example :
    Tests sdk
      (buffering (pos 0) (pos 200))
      (codes
        "{\"grant_type\":\"client_credentials\",\"client_id\":\"app\",\"client_secret\":\"key\"}")
      (token_body_fails sdk (codes "app") (codes "key"))
    × Tests sdk
        (buffering (pos 0) (pos 200))
        (codes
          "{\"thingID\":\"th\",\"thingPassword\":\"pw\",\"thingType\":\"lamp\",\"thingProperties\":{\"a\":1}}")
        (onboard_body_fails sdk (codes "thingID") (some (codes "th")) (some (codes "pw")) options)
bodies-Tests_example =
    bodies-Tests sdk (buffering (pos 0) (pos 200)) (codes "app") (codes "key") (codes "thingID")
      (codes "th") (codes "pw") options

resource_paths-Builds_example :
    Builds {S = Log} false 42
      (codes "thing-if/apps/app/onboardings")
      (prv_set_onboard_resource_path false (codes "app") 42)
    × Builds {S = Log} false 42
        (codes "thing-if/apps/app/targets/thing:th/states")
        (prv_set_state_resource_path false (codes "app") (codes "th") 42)
    × Builds {S = Log} false 42
        (codes "thing-if/apps/app/things/th/firmware-version")
        (prv_set_firmware_version_resource_path false (codes "app") (codes "th") 42)
    × Builds {S = Log} false 42
        (codes "thing-if/apps/app/things/th/thing-type")
        (prv_set_thing_type_resource_path false (codes "app") (codes "th") 42)
resource_paths-Builds_example =
    resource_paths-Builds false (codes "app") (codes "th") 42 (omega arith) (omega arith)
      (omega arith) (omega arith)

prv_execute_http_session-Judged_example :
    Resolves
      (Judged (sdk_with (pos 0) (pos 404)) context)
      (Unexpected (sdk_with (pos 0) (pos 404)) context)
      (prv_execute_http_session (sdk_with (pos 0) (pos 404)) context)
prv_execute_http_session-Judged_example =
    prv_execute_http_session-Judged (sdk_with (pos 0) (pos 404)) context

-- A server that refuses authenticated requests, and a context that gives them a short buffer.
abbrev refusing : Sdk Draft Log
refusing = sdk_with (pos 1) (pos 200)

abbrev short : Context Draft Log
short = record context { kii = record kii { internals = record kii.internals { capacity = 8 } } }

-- After the token request.
abbrev after_token : Sdk Draft Log → Context Draft Log → Context Draft Log
after_token s c = state_after c (prv_kii_thing_if_get_anonymous_token s c)

refused_start :
    (prv_onboard_with_vendor_thing_id refusing
        (some (codes "v"))
        (some (codes "pw"))
        options
        context
      ≡ done false (
          with_error
            (after_start refusing (after_token refusing context) content_type_vendor_thing_id)))
    × (prv_onboard_with_thing_id refusing (some (codes "v")) (some (codes "pw")) options context
        ≡ rest_by_thing_id refusing
            (some (codes "v"))
            (some (codes "pw"))
            options
            (after_start refusing (after_token refusing context) content_type_thing_id))
unfolding prv_kii_thing_if_get_anonymous_token prv_execute_http_session append_body
    prv_append_key_value_string prv_append_key_value prv_kii_thing_if_json_read_object
refused_start =
    start_failure refusing (some (codes "v")) (some (codes "pw")) options context
      (after_token refusing context) refl (omega arith) refl

-- What the request looks like where its body did not fit.
abbrev after_body : Bytes → Bytes → Context Draft Log
after_body id_key content_type =
    let c = after_start sdk (after_token sdk short) content_type in
    state_after c (onboard_body_fails sdk id_key (some (codes "v")) (some (codes "pw")) options c)

overflowing_body :
    (prv_onboard_with_vendor_thing_id sdk (some (codes "v")) (some (codes "pw")) options short
      ≡ done false (with_error (after_body (codes "vendorThingID") content_type_vendor_thing_id)))
    × (prv_onboard_with_thing_id sdk (some (codes "v")) (some (codes "pw")) options short
        ≡ done false (after_body (codes "thingID") content_type_thing_id))
unfolding prv_kii_thing_if_get_anonymous_token prv_execute_http_session append_body
    prv_append_key_value_string prv_append_key_value prv_kii_thing_if_json_read_object
    onboard_body_fails
overflowing_body =
    body_overflow sdk (some (codes "v")) (some (codes "pw")) options short (after_token sdk short)
      refl (omega arith) refl refl refl

-- A state handler that writes an empty object.
abbrev reporter : StateHandler Draft Log
reporter writer c = writer (codes "{}") c

steady : Steady sdk (λ msec w. codes "delay" ∷ w) reporter
unfolding prv_writer append_body
steady = record {
  start_keeps = λ method path content_type auth k w h. h;
  run_keeps = λ k w h. h;
  handler_returns = λ c h. ground arith;
}

prv_update_status-Returns_example :
    Rounds sdk
      (λ msec w. codes "delay" ∷ w)
      reporter
      (codes "thing-if/apps/app/targets/thing:th/states")
      60000
      3
      context
      (prv_update_status sdk (pos 60) (some reporter) 3 context)
unfolding delay_of
prv_update_status-Returns_example =
    prv_update_status-Returns sdk (λ msec w. codes "delay" ∷ w) reporter steady (pos 60) refl 3
      context refl (omega arith)
