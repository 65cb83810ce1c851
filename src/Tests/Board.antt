-- ===== src/Tests/Board.antt =====
-- The CC3200 sample on a small board: sockets that are numbered, a light with a lock, a parser of one
-- text, and events of the network.
use thing_if_thing_sdk.Prelude.{
  true, false, Bytes, codes, bytes_eq, length, ℕ, ◌+◌, pos, minus_one, [], ◌∷◌, some, none, ◌≡◌,
  refl, arith, if◌then◌else◌,
}
use thing_if_thing_sdk.Flow.{fault, Returns}
use thing_if_thing_sdk.Kii.{Sdk, zeroed_kii}
use thing_if_thing_sdk.Context.{Context}
use thing_if_thing_sdk.Request.{prv_writer}
use thing_if_thing_sdk.Command.Items.{decimal}
use thing_if_thing_sdk.LinuxSample.Reports.{Wrote}
use thing_if_thing_sdk.Cc3200.Sockets.{
  Device, SimpleLink, socket_ok, socket_fail, socket_connect_cb_impl, mqtt_connect_cb_impl,
  socket_close_cb_impl,
}
use thing_if_thing_sdk.Cc3200.Sockets.Connections.{
  Connects, LeaksAtMost, both_callbacks-Connects, connected-Closed,
}
use thing_if_thing_sdk.Cc3200.Light.{Light, Board, Firmware, action_handler, state_handler}
use thing_if_thing_sdk.Cc3200.Light.Actions.{Working, Obeys, action_handler-Obeys}
use thing_if_thing_sdk.Cc3200.Light.States.{after_report, state_handler-Writes}
use thing_if_thing_sdk.Tests.Server.{Draft, Log, server, buffering_of}

-- Sockets that count the handles that they gave; sl_SetSockOpt fails.
abbrev simple_link : SimpleLink ℕ
simple_link = record {
  get_host_by_name = λ host n. (pos 0, 1234, n);
  socket = λ n. (pos (n + 1), n + 1);
  set_receive_timeout = λ sock seconds n. (minus_one, n);
  connect = λ sock address port n. (pos 0, n);
  send = λ sock buffer n. (pos (length buffer), n);
  recv = λ sock size n. (pos 0, [], n);
  close = λ sock n. n;
  task_create = λ entry name stack param priority n. (pos 0, n);
  sleep = λ msec n. n + msec;
  keep_alive = some 60;
  task_name_update_status = codes "status_update_task";
  task_name_recv_msg = codes "recv_msg_task";
  task_name_ping_req = codes "ping_req_task";
}

abbrev no_socket : Device ℕ
no_socket = record { opened = []; sock = minus_one; outside = 0 }

board_sockets :
    Returns
      (Connects no_socket)
      (socket_connect_cb_impl simple_link (codes "api.kii.com") 443 no_socket)
    × Returns
        (LeaksAtMost no_socket)
        (mqtt_connect_cb_impl simple_link (codes "api.kii.com") 443 no_socket)
    × (simple_link.keep_alive ≡ none
        → Returns
            (Connects no_socket)
            (mqtt_connect_cb_impl simple_link (codes "api.kii.com") 443 no_socket))
board_sockets = both_callbacks-Connects simple_link (codes "api.kii.com") 443 no_socket

-- The push connection leaves its socket open where its timeout cannot be set.
mqtt_leaks :
    Returns
      (λ code d. (code ≡ socket_fail) × (d.opened ≡ 1 ∷ []))
      (mqtt_connect_cb_impl simple_link (codes "mqtt.kii.com") 8883 no_socket)
unfolding mqtt_connect_cb_impl
mqtt_leaks = (refl, refl)

closed_last :
    Returns
      (λ code d. (code ≡ socket_ok) × (d.opened ≡ []) × (d.sock ≡ minus_one))
      (socket_close_cb_impl simple_link (record { opened = 1 ∷ []; sock = pos 1; outside = 7 }))
unfolding socket_connect_cb_impl
closed_last =
    connected-Closed simple_link (codes "api.kii.com") 443 no_socket
      (record { opened = 1 ∷ []; sock = pos 1; outside = 1 }) refl 7

-- A reader that knows one text.
abbrev firmware : Firmware Log
firmware = record {
  osi_lock_obj_lock = λ o. (pos 0, codes "lock" ∷ o);
  osi_lock_obj_unlock = λ o. (pos 0, codes "unlock" ∷ o);
  osi_ok = pos 0;
  is_kii_json_true = λ b. b;
  kii_json_read_object = λ params size fields error error_size.
      if bytes_eq params (codes "{\"brightness\":80}")
      then (true, record { boolean_value = false; int_value = pos 80 } ∷ [], error)
      else (false, [], error);
}

abbrev lock_works : Working firmware
lock_works = record { ok_zero = refl; locks = λ o. refl; unlocks = λ o. refl }

abbrev light : Light
light = record {
  power = true;
  brightness = pos 10;
  color_0 = pos 255;
  color_1 = pos 0;
  color_2 = pos 7;
  color_temperature = pos 25;
}

abbrev board : Board Log
board = record { m_smartlight = light; others = [] }

-- The schema's name is wrong, but its version is right.
action_handler-Obeys_example :
    Returns (Obeys firmware light (some (record light { brightness = pos 80 }))) (
      action_handler firmware
        (codes "OtherDemo")
        (pos 1)
        (codes "setBrightness")
        (codes "{\"brightness\":80}")
        []
        board)
action_handler-Obeys_example =
    (action_handler-Obeys firmware lock_works (codes "OtherDemo") (pos 1) (codes "setBrightness")
        (codes "{\"brightness\":80}") [] board).0
      refl

-- A long name of a schema overflows the array for the message.
schema_overflows :
    action_handler firmware
      (codes "SmartLightDemoOfAnotherVendorThatIsLong")
      (pos 2)
      (codes "setBrightness")
      []
      []
      board
    ≡ fault
unfolding action_handler decimal
schema_overflows = refl

abbrev sdk : Sdk Draft (Board Log)
sdk = server (λ text b. record b { others = text ∷ b.others }) (pos 0) (pos 200)

abbrev context : Context Draft (Board Log)
context = record {
  kii = record (zeroed_kii sdk) {
    internals = record { head = []; body = []; room = 200; capacity = 200 };
  };
  error = none;
  message = [];
  world = board;
}

abbrev state_text : Bytes
state_text = codes "{\"power\":true,\"brightness\":10,\"color\":[255,0,7],\"colorTemperature\":25}"

light_reported :
    Wrote sdk
      (buffering_of (λ text b. record b { others = text ∷ b.others }) (pos 0) (pos 200))
      state_text
      (after_report firmware context)
      (state_handler firmware (prv_writer sdk) context)
unfolding decimal
light_reported =
    (state_handler-Writes firmware lock_works sdk
        (buffering_of (λ text b. record b { others = text ∷ b.others }) (pos 0) (pos 200))
        context).0
      (omega arith)
