-- ===== src/Tests/Sending.antt =====
-- What is sent to the test server.
use thing_if_thing_sdk.Prelude.{
  true, false, Bytes, codes, pos, minus_one, List, none, some, ◌≡◌, refl, arith,
}
use thing_if_thing_sdk.Flow.{done}
use thing_if_thing_sdk.Context.{Context}
use thing_if_thing_sdk.Thing.{onboarded, command_context}
use thing_if_thing_sdk.Request.{append_body, prv_append_key_value, prv_append_key_value_string}
use thing_if_thing_sdk.Request.Writes.{Appended, at}
use thing_if_thing_sdk.Session.{prv_execute_http_session, prv_kii_thing_if_json_read_object}
use thing_if_thing_sdk.Onboard.{
  OnboardOptions, read_access_token, prv_kii_thing_if_get_anonymous_token,
  prv_onboard_with_vendor_thing_id, prv_onboard_with_thing_id, content_type_vendor_thing_id,
  content_type_thing_id, token_body_fails,
}
use thing_if_thing_sdk.Onboard.Failures.{after_start, with_error}
use thing_if_thing_sdk.Onboard.Sends.{
  token_started, prv_kii_thing_if_get_anonymous_token-sends, onboarding-sends, failed_start-runs,
}
use thing_if_thing_sdk.Onboard.Reading.{Finishes, token_reading, author_reading}
use thing_if_thing_sdk.Kii.{Sdk}
use thing_if_thing_sdk.Attributes.Answers.{get_started}
use thing_if_thing_sdk.Attributes.{update_firmware_version, update_thing_type}
use thing_if_thing_sdk.Attributes.Sends.{Puts, version_started, type_started, updates-send}
use thing_if_thing_sdk.Tests.Server.{Draft, sdk, sdk_with, buffering, context, host, state_after}

abbrev options : OnboardOptions
options = record {
  thing_type = some (codes "lamp");
  firmware_version = none;
  layout_position = none;
  thing_properties = none;
}

prv_kii_thing_if_get_anonymous_token-sends_example :
    (j : Draft) × Appended sdk
      (buffering (pos 0) (pos 200))
      (codes
        "{\"grant_type\":\"client_credentials\",\"client_id\":\"app\",\"client_secret\":\"key\"}")
      (token_started sdk context).kii.internals
      j
    × Finishes sdk
        (pos 0)
        minus_one
        (token_reading sdk)
        (at (token_started sdk context) j)
        (prv_kii_thing_if_get_anonymous_token sdk context)
prv_kii_thing_if_get_anonymous_token-sends_example =
    prv_kii_thing_if_get_anonymous_token-sends sdk (buffering (pos 0) (pos 200)) context
      (omega arith) refl (omega arith)

-- After the token request.
abbrev after_token : Context Draft (List Bytes)
after_token = state_after context (prv_kii_thing_if_get_anonymous_token sdk context)

onboarding-sends_example :
    ((i : Draft) × Appended sdk
        (buffering (pos 0) (pos 200))
        (codes "{\"vendorThingID\":\"v\",\"thingPassword\":\"pw\",\"thingType\":\"lamp\"}")
        (after_start sdk after_token content_type_vendor_thing_id).kii.internals
        i
      × Finishes sdk true false
          (author_reading sdk)
          (at (after_start sdk after_token content_type_vendor_thing_id) i)
          (prv_onboard_with_vendor_thing_id sdk
            (some (codes "v"))
            (some (codes "pw"))
            options
            context))
    × ((j : Draft) × Appended sdk
          (buffering (pos 0) (pos 200))
          (codes "{\"thingID\":\"v\",\"thingPassword\":\"pw\",\"thingType\":\"lamp\"}")
          (after_start sdk after_token content_type_thing_id).kii.internals
          j
        × Finishes sdk true false
            (author_reading sdk)
            (at (after_start sdk after_token content_type_thing_id) j)
            (prv_onboard_with_thing_id sdk (some (codes "v")) (some (codes "pw")) options context))
unfolding prv_kii_thing_if_get_anonymous_token token_body_fails read_access_token
    prv_execute_http_session append_body prv_append_key_value_string prv_append_key_value
    prv_kii_thing_if_json_read_object
onboarding-sends_example =
    onboarding-sends sdk (buffering (pos 0) (pos 200)) (codes "v") (codes "pw") options context
      after_token refl (omega arith) refl (omega arith) (omega arith)

-- A server that refuses authenticated requests, and after its token request.
abbrev refusing : Sdk Draft (List Bytes)
refusing = sdk_with (pos 1) (pos 200)

abbrev refused_token : Context Draft (List Bytes)
refused_token = state_after context (prv_kii_thing_if_get_anonymous_token refusing context)

failed_start-runs_example :
    (prv_onboard_with_vendor_thing_id refusing
        (some (codes "v"))
        (some (codes "pw"))
        options
        context
      ≡ done false (with_error (after_start refusing refused_token content_type_vendor_thing_id)))
    × ((j : Draft) × Appended refusing
          (buffering (pos 1) (pos 200))
          (codes "{\"thingID\":\"v\",\"thingPassword\":\"pw\",\"thingType\":\"lamp\"}")
          (after_start refusing refused_token content_type_thing_id).kii.internals
          j
        × Finishes refusing true false
            (author_reading refusing)
            (at (after_start refusing refused_token content_type_thing_id) j)
            (prv_onboard_with_thing_id refusing
              (some (codes "v"))
              (some (codes "pw"))
              options
              context))
unfolding prv_kii_thing_if_get_anonymous_token token_body_fails read_access_token
    prv_execute_http_session append_body prv_append_key_value_string prv_append_key_value
    prv_kii_thing_if_json_read_object
failed_start-runs_example =
    failed_start-runs refusing (buffering (pos 1) (pos 200)) (codes "v") (codes "pw") options
      context refused_token refl (omega arith) refl refl (omega arith)

-- After the session of a get function.
abbrev after_get : Bytes → Context Draft (List Bytes)
after_get part =
    state_after context
      (prv_execute_http_session sdk (get_started sdk part (command_context (host onboarded))))

updates-send_example :
    Puts sdk
      (host onboarded)
      (buffering (pos 0) (pos 200))
      (codes "{\"firmwareVersion\":\"2.0\"}")
      (version_started sdk (host onboarded))
      (update_firmware_version sdk (some (codes "2.0")) (host onboarded))
    × Puts sdk
        (host onboarded)
        (buffering (pos 0) (pos 200))
        (codes "{\"thingType\":\"2.0\"}")
        (type_started sdk (host onboarded))
        (update_thing_type sdk (some (codes "2.0")) (host onboarded))
updates-send_example =
    updates-send sdk (buffering (pos 0) (pos 200)) (host onboarded) refl (codes "2.0") (omega arith)
      refl (omega arith) (omega arith) refl (omega arith)
