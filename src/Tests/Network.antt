-- ===== src/Tests/Network.antt =====
-- The network of the CC3200 sample with a driver whose calls succeed, and events of an access point.
use thing_if_thing_sdk.Prelude.{
  true, false, codes, length, ℕ, ◌+◌, ◌-◌, ◌%◌, ◌==◌, drop, replicate, leb, ℤ, pos, [], ◌∷◌, some,
  ◌≡◌, refl, arith, if◌then◌else◌,
}
use thing_if_thing_sdk.Flow.{done, Returns}
use thing_if_thing_sdk.Cc3200.Sockets.{is_negative}
use thing_if_thing_sdk.Cc3200.Wlan.{
  simple_link_wlan_event_handler, simple_link_net_app_event_handler, Common, Globals, Event,
  wlan_event, net_app_event, sta_connected, sta_disconnected, ip_acquired, handle_events,
  initialize_app_variables,
}
use thing_if_thing_sdk.Cc3200.Wlan.Driver.{
  wait_until, configure_simple_link_to_default_state, Station, Call, sl_wlan_connect, wlan_connect,
  connected_with_ip,
}
use thing_if_thing_sdk.Cc3200.Wlan.Events.{Bits, Readable, Wellformed, handle_events-Wellformed}
use thing_if_thing_sdk.Cc3200.Wlan.Waiting.{
  ScheduleReadable, Waits, after_batches, after_call, wlan_connect-Waits,
}
use thing_if_thing_sdk.Cc3200.Wlan.Program.{Rtos, main, returned}
use thing_if_thing_sdk.Cc3200.Wlan.Program.Reset.{Accepts, asserts}
use thing_if_thing_sdk.Cc3200.Wlan.Program.Starts.{main-starts, tasks_started, fourteen_calls}
use thing_if_thing_sdk.Cc3200.Wlan.Program.Outside.{after_calls}
use thing_if_thing_sdk.Prelude.{List, zero, suc, if◌then◌else◌, minus_one, ◌++◌}
use thing_if_thing_sdk.Cc3200.Wlan.Program.Connected.{Ends, Started, main-Connected}

-- The status: bit 0 is the connection, and what is above it the IP address.
abbrev set_bit : ℕ → ℕ → ℕ
set_bit status bit = if bit == 0 then status - status % 2 + 1 else status % 2 + 2

abbrev clear_bit : ℕ → ℕ → ℕ
clear_bit status bit = if bit == 0 then status - status % 2 else status % 2

abbrev common : Common
common = record {
  status_bit_connection = 0;
  status_bit_ip_aquired = 1;
  set_status_bit = set_bit;
  clr_status_bit = clear_bit;
  is_connected = λ status. status % 2 == 1;
  is_ip_acquired = λ status. leb 2 status;
  assert_on_error = is_negative;
  success = pos 0;
  ssid_len_max = 32;
  bssid_len_max = 6;
  sl_bssid_length = 6;
  role_sta = pos 0;
  role_ap = pos 2;
}

abbrev bits : Bits common
bits = record {
  set_connection = λ s. ground arith;
  set_ip_keeps = λ s. ground arith;
  bssid_fits = omega arith;
}

abbrev join : Event
join = wlan_event (some (sta_connected (codes "home") 4 (codes "aabbcc")))

abbrev join_readable : Readable common join
join_readable = (omega arith, omega arith, omega arith)

abbrev leave : Event
leave = wlan_event (some (sta_disconnected 1))

abbrev address : Event
address = net_app_event (some (ip_acquired 1234 1))

abbrev fresh : Globals
fresh = record {
  g_ul_status = 0;
  g_ul_gateway_ip = 0;
  g_uc_connection_ssid = replicate 33 0;
  g_uc_connection_bssid = replicate 6 0;
  g_ul_destination_ip = 0;
  g_ui_port_num = 0;
  g_ul_packet_count = 0;
  g_ul_ip_addr = 0;
}

abbrev fresh-Wellformed : Wellformed common fresh
fresh-Wellformed = record {
  text = replicate 32 0;
  ssid_text = refl;
  text_length = refl;
  bssid_length = refl;
  forgotten = λ _. (refl, refl);
}

handle_events-Wellformed_example :
    Returns
      (λ _ g. Wellformed common g)
      (handle_events common (join ∷ address ∷ leave ∷ join ∷ []) fresh)
handle_events-Wellformed_example =
    handle_events-Wellformed common bits (join ∷ address ∷ leave ∷ join ∷ []) fresh
      (join_readable, (tt, (tt, (join_readable, tt)))) fresh-Wellformed

-- A driver that counts its calls, which succeed.
abbrev driver : Call → ℕ → ℤ × ℕ
driver c n = (if asserts c then pos 0 else minus_one, n + 1)

-- The address comes before the connection, which is lost once.
abbrev station : Station ℕ
station = record {
  globals = fresh;
  schedule =
      (address ∷ []) ∷ (join ∷ []) ∷ (leave ∷ []) ∷ (join ∷ address ∷ []) ∷ (leave ∷ []) ∷ [];
  outside = 0;
}

abbrev schedule_readable : ScheduleReadable common station.schedule
schedule_readable =
    ((tt, tt), ((join_readable, tt), ((tt, tt), ((join_readable, (tt, tt)), ((tt, tt), tt)))))

wlan_connect-Waits_example :
    (g : Globals) × (after_batches common 1 station.schedule fresh ≡ some g)
    × (common.assert_on_error (pos 0) ≡ true
        → wlan_connect common driver station
          ≡ done (pos 0) (after_call common bits driver station sl_wlan_connect g))
    × (common.assert_on_error (pos 0) ≡ false
        → Waits common
            (connected_with_ip common driver)
            (pos 0)
            (drop 1 station.schedule)
            g
            (wlan_connect common driver station))
wlan_connect-Waits_example =
    wlan_connect-Waits common bits driver station schedule_readable fresh-Wellformed

-- It ends at the second batch, with three still to come.
connects_at_second :
    Returns (λ r s. (r ≡ pos 0) × (length s.schedule ≡ 3)) (wlan_connect common driver station)
unfolding wlan_connect wait_until simple_link_wlan_event_handler simple_link_net_app_event_handler
connects_at_second = (refl, refl)

abbrev rtos : Rtos ℕ
rtos = record {
  set_up = λ n. n;
  osi_msg_q_create = λ n. (pos 0, n);
  osi_lock_obj_create = λ n. (pos 0, n);
  osi_task_create = λ entry name stack priority n. (pos 0, n);
  osi_start = λ n. n;
  osi_ok = pos 0;
}

main-Connected_example : Ends (Started common driver) (main common driver rtos station)
main-Connected_example = main-Connected common bits driver rtos (λ r h. h) station schedule_readable

accepts : Accepts common driver rtos
accepts = record {
  fine = λ c o a. rw a refl;
  nonnegative = λ c o a. rw a refl;
  in_station = λ o. refl;
  not_connected = λ o. refl;
  success = refl;
  queue = λ o. refl;
}

-- No events during the reset and the start, and then the connection and the address.
abbrev later_events : Station ℕ
later_events = record station {
  schedule = replicate 14 [] ++ (join ∷ []) ∷ (address ∷ []) ∷ (leave ∷ []) ∷ [];
}

quiet-ScheduleReadable :
    (n : ℕ) (later : List (List Event))
    → ScheduleReadable common later
    → ScheduleReadable common (replicate n [] ++ later)
quiet-ScheduleReadable zero later h = h
quiet-ScheduleReadable (suc n) later h = (tt, quiet-ScheduleReadable n later h)

-- The variables once the station is connected and has its address.
abbrev joined : Globals → Globals
joined g = record (initialize_app_variables common g) {
  g_ul_status = 3;
  g_uc_connection_ssid = codes "home" ++ replicate 29 0;
  g_uc_connection_bssid = codes "aabbcc";
  g_ul_ip_addr = 1234;
  g_ul_gateway_ip = 1;
}

main-starts_example :
    Returns
      (λ ending s.
        (ending ≡ returned (pos 0))
        × ((connected_with_ip common driver s.globals.g_ul_status ≡ true)
            × (s.outside
                ≡ tasks_started rtos
                    (after_calls driver fourteen_calls (rtos.set_up later_events.outside)))))
      (main common driver rtos later_events)
unfolding initialize_app_variables simple_link_wlan_event_handler simple_link_net_app_event_handler
main-starts_example =
    main-starts common driver rtos bits accepts later_events
      (quiet-ScheduleReadable 14 ((join ∷ []) ∷ (address ∷ []) ∷ (leave ∷ []) ∷ [])
        ((join_readable, tt), ((tt, tt), ((tt, tt), tt))))
      (λ g. (2, joined g, refl, refl))

-- All of its fourteen calls, and one batch that is not needed.
main_calls :
    Returns
      (λ ending s. (length s.schedule ≡ 1) × (s.outside ≡ 14))
      (main common driver rtos later_events)
unfolding main configure_simple_link_to_default_state initialize_app_variables wlan_connect
    wait_until simple_link_wlan_event_handler simple_link_net_app_event_handler
main_calls = (refl, refl)
