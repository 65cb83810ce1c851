-- ===== src/Tests/Sample.antt =====
-- The handlers and the program of the Linux sample with the test server.
use thing_if_thing_sdk.Prelude.{
  true, false, Bytes, codes, length, ℕ, ◌≤◌, ◌<◌, pos, List, [], ◌∷◌, some, none, ◌≡◌, refl, arith,
  ◌-◌,
}
use thing_if_thing_sdk.Flow.{Returns, Ensures, pure, ◌>>◌}
use thing_if_thing_sdk.Thing.{Host, SystemCb, zeroed_thing}
use thing_if_thing_sdk.Request.{append_body, prv_writer}
use thing_if_thing_sdk.Report.Task.{Rounds}
use thing_if_thing_sdk.Report.{delay_of, prv_update_status}
use thing_if_thing_sdk.Init.{prv_init_kii_thing_if}
use thing_if_thing_sdk.Onboard.{init_kii_thing_if_with_onboarded_thing, prv_set_author}
use thing_if_thing_sdk.Lifecycle.{start, perform}
use thing_if_thing_sdk.Command.{received_callback}
use thing_if_thing_sdk.Command.Whole.{Sends}
use thing_if_thing_sdk.Command.Items.{decimal}
use thing_if_thing_sdk.LinuxSample.{
  Process, Platform, action_handler, state_handler, custom_push_handler, write_all, write_state,
  atoi, prv_get_air_conditioner_info, prv_set_air_conditioner_info,
}
use thing_if_thing_sdk.LinuxSample.Actions.{Answers, known, action_handler-Answers}
use thing_if_thing_sdk.LinuxSample.Commands.{
  action_handler-Explains, state_handler-comes_back, received_callback-Settles,
}
use thing_if_thing_sdk.LinuxSample.Settled.{settled, calls}
use thing_if_thing_sdk.LinuxSample.Reports.{Wrote, Refused}
use thing_if_thing_sdk.LinuxSample.States.{
  read_state, after_report, state_handler-Reports, state_handler-read,
}
use thing_if_thing_sdk.LinuxSample.Task.{Delays, Keeping, prv_update_status-state_handler}
use thing_if_thing_sdk.LinuxSample.Options.{Parsed}
use thing_if_thing_sdk.LinuxSample.Program.{
  Surroundings, running, main, sub_command, token_loop, onboard_with_token,
}
use thing_if_thing_sdk.LinuxSample.Program.Started.{StartedReady, main-StartedReady}
use thing_if_thing_sdk.LinuxSample.Program.Help.{main-help}
use thing_if_thing_sdk.Tests.Server.{Draft, error_info}
use thing_if_thing_sdk.Tests.Conditioner.{
  Outside, platform, working, process, log_text, sdk, buffering, context, humidity, aliases_at,
  opened, command_opens,
}

-- The air conditioner is switched on.
received_callback-Settles_example :
    let w : Process Outside = record {
      m_air_conditioner = record { power = true; temperature = pos 25 };
      others = record { log = []; mutex_held = false; file = none };
    } in
    Sends sdk buffering 2
      (action_handler platform)
      (action_handler-Explains platform sdk working)
      (state_handler platform)
      (state_handler-comes_back platform sdk)
      (codes "{\"actionResults\":[{\"turnPower\":{\"succeeded\":true}}]}")
      w
      opened
      (received_callback sdk
        (some (action_handler platform))
        (some (state_handler platform))
        (some (custom_push_handler platform))
        10
        69
        (context none))
    × (w.m_air_conditioner ≡ settled (calls (humidity ∷ [])) opened.world.m_air_conditioner)
unfolding action_handler
received_callback-Settles_example =
    received_callback-Settles platform sdk working buffering 2 10 69 28 40 (humidity ∷ [])
      (context none) opened refl command_opens (omega arith) (omega arith) aliases_at (omega arith)

-- A platform whose mutex cannot be released.
abbrev stuck : Platform Outside
stuck = record platform { pthread_mutex_unlock = λ o. (pos 1, o) }

answer_of_stuck :
    let (ok, error, w) =
      action_handler stuck
        (codes "HumidityAlias")
        (codes "turnPower")
        (codes "true")
        (7 ∷ [])
        (process none) in
    Answers
      (codes "turnPower")
      (codes "true")
      (7 ∷ [])
      (process none).m_air_conditioner
      (ok, error, w.m_air_conditioner)
    × (ok ≡ true → known (codes "HumidityAlias") ≡ true)
answer_of_stuck =
    action_handler-Answers stuck (codes "HumidityAlias") (codes "turnPower") (codes "true") (7 ∷ [])
      (process none)

-- setPresetTemperature with the parameters 30 sets 0.
preset :
    action_handler platform
      (codes "AirConditionerAlias")
      (codes "setPresetTemperature")
      (codes "30")
      []
      (process none)
    ≡ (
      true,
      [],
      record (process none) { m_air_conditioner = record { power = false; temperature = pos 0 } },
    )
unfolding action_handler prv_get_air_conditioner_info prv_set_air_conditioner_info atoi
preset = refl

state_handler-Reports_example :
    let text = codes "{\n\"x\":1}" in
    let r = state_handler platform (prv_writer sdk) (context (some text)) in
    (length text ≤ 200
      → Wrote sdk buffering text (after_report platform (some text) (context (some text))) r)
    × (200 < length text
        → Refused sdk buffering (after_report platform (some text) (context (some text))) r)
state_handler-Reports_example =
    state_handler-Reports platform sdk buffering working (context (some (codes "{\n\"x\":1}")))
      (some (codes "{\n\"x\":1}")) refl (ground arith)

state_handler-read_example :
    Returns
      (λ ok t.
        (ok ≡ true)
        × ((text : Bytes) × (t.kii.internals.body ≡ text)
            × (read_state text ≡ some t.world.m_air_conditioner)))
      (state_handler platform (prv_writer sdk) (context none))
unfolding decimal
state_handler-read_example =
    state_handler-read platform sdk buffering working (context none) (λ b. refl) refl (omega arith)
      (omega arith)

-- What the handler writes.
state_written :
    Returns
      (λ ok t.
        t.kii.internals.body
        ≡ codes "{\"AirConditionerAlias\":{\"power\":false,\"currentTemperature\":25}}")
      (state_handler platform (prv_writer sdk) (context none))
unfolding state_handler write_state write_all prv_get_air_conditioner_info prv_writer append_body
    decimal
state_written = refl

abbrev log_delay : ℕ → Process Outside → Process Outside
log_delay msec w = log_text (codes "delay") w

keeping : Keeping sdk (Delays sdk log_delay)
keeping = record {
  start_keeps = λ method path content_type auth k w h. h;
  append_keeps = λ s n k w h. ground (arith, h);
  run_keeps = λ k w h. h;
}

prv_update_status-state_handler_example :
    Rounds sdk log_delay
      (state_handler platform)
      (codes "thing-if/apps/app/targets/thing:th/states")
      60000
      5
      (context none)
      (prv_update_status sdk (pos 60) (some (state_handler platform)) 5 (context none))
unfolding delay_of
prv_update_status-state_handler_example =
    prv_update_status-state_handler sdk log_delay keeping platform (pos 60) refl 5 (context none)
      refl (omega arith)

abbrev system_cb : SystemCb (Process Outside)
system_cb = record {
  task_create_cb = some (λ name entry param w. (pos 0, log_text name w));
  delay_ms_cb = some log_delay;
  log_cb = 1;
  socket_connect_cb = 2;
  socket_send_cb = 3;
  socket_recv_cb = 4;
  socket_close_cb = 5;
  mqtt_socket_connect_cb = 6;
  mqtt_socket_send_cb = 7;
  mqtt_socket_recv_cb = 8;
  mqtt_socket_close_cb = 9;
}

abbrev parsed : ℕ → ℕ → Bytes → Parsed
parsed c opt_index optarg = record { c = c; opt_index = opt_index; optarg = some optarg }

-- The options of the tests, whatever the arguments are.
abbrev around : List Parsed → Surroundings Outside
around options = record {
  system_cb = system_cb;
  kii_thing_if = 100;
  command_handler_buff = 101;
  mqtt_buff = 102;
  state_updater_buff = 103;
  uninitialized_text = [];
  uninitialized_error = error_info;
  pthread_mutex_init = λ o. (pos 0, o);
  getopt_long = λ argv options'. options;
}

abbrev host : Host Draft (Process Outside)
host = record { thing = zeroed_thing sdk; error = none; world = process none }

abbrev with_token : List Parsed
with_token = parsed 0 0 (codes "th") ∷ parsed 1 1 (codes "tok") ∷ []

main-StartedReady_example : Ensures (StartedReady sdk platform (around with_token)) (
    main sdk platform
      (around with_token)
      (codes "exampleapp" ∷ codes "onboard-with-token" ∷ codes "..." ∷ [])
      host)
main-StartedReady_example =
    main-StartedReady sdk platform (around with_token) (codes "exampleapp")
      (codes "onboard-with-token") (codes "..." ∷ []) host refl

-- That program does start, and creates the task that reports the state.
runs :
    Returns
      (λ ending h. (ending ≡ running) × (h.world.others.log ≡ codes "status_update_task" ∷ []))
      (main sdk platform
        (around with_token)
        (codes "exampleapp" ∷ codes "onboard-with-token" ∷ codes "..." ∷ [])
        host)
unfolding main sub_command token_loop onboard_with_token perform
    init_kii_thing_if_with_onboarded_thing prv_init_kii_thing_if prv_set_author start
runs = (refl, refl)

-- --help as the only option, which is the last of the options.
abbrev helping : Surroundings Outside
helping = record (around []) {
  getopt_long = λ argv options.
      record { c = length options - 1; opt_index = length options - 1; optarg = none } ∷ [];
}

main-help_example :
    let starts = (start sdk >> pure running) host in
    (main sdk platform helping (codes "exampleapp" ∷ codes "onboard" ∷ codes "--help" ∷ []) host
      ≡ starts)
    × (main sdk platform helping
          (codes "exampleapp" ∷ codes "onboard-with-token" ∷ codes "--help" ∷ [])
          host
        ≡ starts)
main-help_example =
    main-help sdk platform helping (codes "exampleapp") (codes "--help" ∷ []) host
      (process none).others (record { c = 3; opt_index = 3; optarg = none })
      (record { c = 2; opt_index = 2; optarg = none }) [] [] refl refl refl refl refl
