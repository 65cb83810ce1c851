-- ===== src/Tests/Operations.antt =====
-- The public functions of the instance against the test server.
use thing_if_thing_sdk.Prelude.{
  refl, true, false, Bytes, codes, pos, [], ◌∷◌, Option, none, some, ◌≡◌, ◌≢◌, arith,
}
use thing_if_thing_sdk.Flow.{done, Ensures}
use thing_if_thing_sdk.Thing.{
  CommandHandlerResource, StateUpdaterResource, SystemCb, initialized, started,
}
use thing_if_thing_sdk.Init.{init_kii_thing_if}
use thing_if_thing_sdk.Init.Wiring.{IsWired, init_kii_thing_if-IsWired}
use thing_if_thing_sdk.Onboard.{
  OnboardOptions, onboard_with_vendor_thing_id, onboard_with_thing_id,
  init_kii_thing_if_with_onboarded_thing,
}
use thing_if_thing_sdk.Onboard.Authors.{
  IsOnboarded, onboard-IsOnboarded, init_kii_thing_if_with_onboarded_thing-IsOnboarded,
}
use thing_if_thing_sdk.Attributes.{
  get_firmware_version, update_firmware_version, get_thing_type, update_thing_type,
}
use thing_if_thing_sdk.Attributes.Replies.{refused, attributes_need_onboarding}
use thing_if_thing_sdk.Lifecycle.{
  InitArguments, init, onboard_vendor, start_thing, perform, perform_all,
}
use thing_if_thing_sdk.Lifecycle.States.{Follows, perform-Follows, never_started}
use thing_if_thing_sdk.Flow.{Returns}
use thing_if_thing_sdk.Context.{Context}
use thing_if_thing_sdk.Thing.{Host, command_context, onboarded}
use thing_if_thing_sdk.Lifecycle.{start}
use thing_if_thing_sdk.Lifecycle.Success.{
  init_kii_thing_if-succeeds, start-succeeds, onboard-succeeds, Onboards,
}
use thing_if_thing_sdk.Onboard.{
  prv_onboard_with_vendor_thing_id, prv_onboard_with_thing_id, prv_kii_thing_if_get_anonymous_token,
  token_body_fails, read_access_token, onboard_body_fails, finish_onboarding,
}
use thing_if_thing_sdk.ResourcePath.{prv_set_onboard_resource_path}
use thing_if_thing_sdk.Session.{
  prv_execute_http_session, prv_thing_if_parse_onboarding_response,
  prv_kii_thing_if_json_read_object,
}
use thing_if_thing_sdk.Request.{
  append_body, prv_append_key_value_string, prv_append_key_value_string_optional,
  prv_append_key_value_object_optional, prv_append_key_value,
}
use thing_if_thing_sdk.Tests.Server.{state_after, Draft, Log, sdk, host, handler}

abbrev commands : CommandHandlerResource Draft Log
commands = record {
  buffer = 1000;
  buffer_size = 512;
  mqtt_buffer = 2000;
  mqtt_buffer_size = 256;
  action_handler = some handler;
  state_handler = none;
  custom_push_handler = none;
}

abbrev states : StateUpdaterResource Draft Log
states = record { buffer = 3000; buffer_size = 128; period = pos 60; state_handler = none }

abbrev system_cb : SystemCb Log
system_cb = record {
  task_create_cb = some (λ name entry param w. (pos 0, codes "task" ∷ w));
  delay_ms_cb = some (λ msec w. codes "delay" ∷ w);
  log_cb = 10;
  socket_connect_cb = 11;
  socket_send_cb = 12;
  socket_recv_cb = 13;
  socket_close_cb = 14;
  mqtt_socket_connect_cb = 15;
  mqtt_socket_send_cb = 16;
  mqtt_socket_recv_cb = 17;
  mqtt_socket_close_cb = 18;
}

abbrev arguments : InitArguments Draft Log
arguments = record {
  self = 5000;
  app_id = some (codes "app");
  app_key = some (codes "key");
  app_host = some (codes "api.kii.com");
  command_handler_resource = some commands;
  state_updater_resource = some states;
  system_cb = system_cb;
  resource_cb = 0;
}

abbrev options : OnboardOptions
options = record {
  thing_type = some (codes "lamp");
  firmware_version = none;
  layout_position = none;
  thing_properties = none;
}

abbrev vendor_id : Option Bytes
vendor_id = some (codes "v1")

abbrev password : Option Bytes
password = some (codes "pw")

perform-Follows_example :
    Ensures
      (Follows sdk (onboard_vendor vendor_id password options) initialized)
      (perform sdk (onboard_vendor vendor_id password options) (host initialized))
perform-Follows_example =
    perform-Follows sdk (onboard_vendor vendor_id password options) (host initialized)

never_started_example :
    Ensures
      (λ _ h'. h'.thing.state ≢ started)
      (perform_all sdk
        (init arguments ∷ onboard_vendor vendor_id password options ∷ start_thing ∷ [])
        (host initialized))
never_started_example =
    never_started sdk arguments (onboard_vendor vendor_id password options ∷ start_thing ∷ [])
      (host initialized)

onboard-IsOnboarded_example :
    Ensures
      (λ ok h'. ok ≡ true → IsOnboarded sdk h')
      (onboard_with_vendor_thing_id sdk vendor_id password options (host initialized))
    × Ensures
        (λ ok h'. ok ≡ true → IsOnboarded sdk h')
        (onboard_with_thing_id sdk vendor_id password options (host initialized))
onboard-IsOnboarded_example = onboard-IsOnboarded sdk vendor_id password options (host initialized)

init_kii_thing_if-IsWired_example :
    Ensures
      (λ ok h'. ok ≡ true → IsWired 5000 0 commands states system_cb h'.thing)
      (init_kii_thing_if sdk 5000 arguments.app_id arguments.app_key arguments.app_host
        (some commands)
        (some states)
        system_cb
        0
        (host initialized))
init_kii_thing_if-IsWired_example =
    init_kii_thing_if-IsWired sdk 5000 arguments.app_id arguments.app_key arguments.app_host
      commands states system_cb 0 (host initialized)

init_kii_thing_if_with_onboarded_thing-IsOnboarded_example :
    Ensures
      (λ ok h'.
        ok ≡ true
        → IsOnboarded sdk h'
          × (h'.thing.command_handler.author
              ≡ record { author_id = codes "th.2"; access_token = codes "token" }))
      (init_kii_thing_if_with_onboarded_thing sdk 5000 arguments.app_id arguments.app_key
        arguments.app_host
        (codes "th.2")
        (codes "token")
        (some commands)
        (some states)
        system_cb
        0
        (host initialized))
init_kii_thing_if_with_onboarded_thing-IsOnboarded_example =
    init_kii_thing_if_with_onboarded_thing-IsOnboarded sdk 5000 arguments.app_id arguments.app_key
      arguments.app_host (codes "th.2") (codes "token") (some commands) (some states) system_cb 0
      (host initialized)

refused_attributes :
    (get_firmware_version sdk (codes "old") 8 (host initialized)
      ≡ done (false, codes "old") (refused (host initialized)))
    × (update_firmware_version sdk (some (codes "2.0")) (host initialized)
        ≡ done false (refused (host initialized)))
    × (get_thing_type sdk (codes "old") 8 (host initialized)
        ≡ done (false, codes "old") (refused (host initialized)))
    × (update_thing_type sdk (some (codes "2.0")) (host initialized)
        ≡ done false (refused (host initialized)))
refused_attributes =
    attributes_need_onboarding sdk (host initialized) (ground arith) (codes "old") 8
      (some (codes "2.0"))

init_kii_thing_if-succeeds_example :
    Returns
      (λ ok h'. (ok ≡ true) × IsWired 5000 0 commands states system_cb h'.thing)
      (init_kii_thing_if sdk 5000
        (some (codes "app"))
        (some (codes "key"))
        (some (codes "api.kii.com"))
        (some commands)
        (some states)
        system_cb
        0
        (host initialized))
init_kii_thing_if-succeeds_example =
    init_kii_thing_if-succeeds sdk (host initialized) 5000 (codes "app") (codes "key")
      (codes "api.kii.com") commands states system_cb 0 (omega arith) refl

-- An onboarded instance with the callback that creates tasks.
abbrev ready : Host Draft Log
ready =
    let h = host onboarded in
    record h {
      thing = record h.thing {
        state_updater = record h.thing.state_updater {
          task_create_cb = some (λ name entry param w. (pos 0, name ∷ w));
        };
      };
    }

task_of_start :
    Returns (λ ok h'. (ok ≡ true) × (h'.world ≡ codes "status_update_task" ∷ [])) (start sdk ready)
task_of_start = start-succeeds sdk ready (λ name entry param w. (pos 0, name ∷ w)) refl refl refl

abbrev by_vendor_id : Context Draft Log
by_vendor_id = state_after (command_context (host initialized)) (
    prv_onboard_with_vendor_thing_id sdk vendor_id password options
      (command_context (host initialized)))

abbrev by_thing_id : Context Draft Log
by_thing_id =
    state_after (command_context (host initialized)) (
      prv_onboard_with_thing_id sdk vendor_id password options (command_context (host initialized)))

onboarded_by_requests :
    Onboards sdk
      (host initialized)
      vendor_id
      password
      options
      by_vendor_id
      (onboard_with_vendor_thing_id sdk vendor_id password options (host initialized))
    × Onboards sdk
        (host initialized)
        vendor_id
        password
        options
        by_thing_id
        (onboard_with_thing_id sdk vendor_id password options (host initialized))
unfolding prv_onboard_with_vendor_thing_id prv_onboard_with_thing_id
    prv_kii_thing_if_get_anonymous_token token_body_fails read_access_token onboard_body_fails
    finish_onboarding prv_set_onboard_resource_path prv_execute_http_session
    prv_thing_if_parse_onboarding_response append_body prv_append_key_value_string
    prv_append_key_value_string_optional prv_append_key_value_object_optional prv_append_key_value
    prv_kii_thing_if_json_read_object
onboarded_by_requests =
    onboard-succeeds sdk (host initialized) vendor_id password options by_vendor_id by_thing_id
      (ground arith) (omega arith, omega arith) (omega arith, omega arith) refl refl
