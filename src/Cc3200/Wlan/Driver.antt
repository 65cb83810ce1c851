-- ===== src/Cc3200/Wlan/Driver.antt =====
-- The functions of cc3200-sample/freertos_thingsdk_demo/main.c that call SimpleLink's driver: the reset
-- to the default state and the connection to the access point. The events arrive in batches, one during
-- each call of the driver and one between two looks of a waiting loop at the status. ASSERT_ON_ERROR is
-- a macro of common.h, so it is a parameter.
use thing_if_thing_sdk.Prelude.{
  Bool, true, false, ℕ, ℤ, pos, negsuc, int_eq, List, [], ◌∷◌, ◌&&◌, not, if◌then◌else◌,
}
use thing_if_thing_sdk.Flow.{Outcome, done, fault, aborted, unfinished, Run, pure, ◌>>=◌, ◌>>◌}
use thing_if_thing_sdk.Cc3200.Wlan.{Globals, Event, Common, handle_events, initialize_app_variables}

-- The calls of the driver, with what tells them apart.
pub data Call : Type 0 where
  sl_start sl_wlan_disconnect sl_net_app_mdns_unregister_service : Call
  sl_wlan_set_mode : ℤ → Call
  sl_stop_now sl_stop_with_timeout : Call
  sl_dev_get_version : Call
  sl_wlan_policy_connection sl_wlan_policy_scan sl_wlan_policy_pm : Call
  sl_wlan_profile_del : ℕ → Call
  sl_net_cfg_set_dhcp : Call
  sl_wlan_set_tx_power : ℕ → Call
  sl_wlan_remove_rx_filters : Call
  sl_wlan_connect : Call

-- The globals, the batches of events that are still to come, and the device.
pub record Station (N : Type 0) : Type 0 where
  pub globals : Globals
  pub schedule : List (List Event)
  pub outside : N

-- A run of the handlers on the globals of a station.
abbrev pub on_globals : {N A : Type 0} → Run Globals A → Run (Station N) A
on_globals m s = elim (m s.globals) [
  | done a g ↦ done a (record s { globals = g })
  | aborted ↦ aborted
  | fault ↦ fault
  | unfinished ↦ unfinished
]

module _ {N : Type 0} (common : Common) (perform : Call → N → ℤ × N) where
  -- The first batch, if there is one.
  abbrev pub next_batch : List (List Event) → Run (Station N) Unit
  next_batch [] s = done tt s
  next_batch (batch ∷ later) s =
      on_globals (handle_events common batch) (record s { schedule = later })

  -- A call of the driver, and the events that arrive during it.
  abbrev pub call : Call → Run (Station N) ℤ
  call c s =
      let (r, o) = perform c s.outside in
      (next_batch s.schedule >> pure r) (record s { outside = o })

  -- A loop that looks at the status until the test holds. Where no event is left, it waits for ever.
  unfoldable pub wait_until :
      (ℕ → Bool) → List (List Event) → Globals → N → Outcome (Station N) Unit
  wait_until test [] g o =
      if test g.g_ul_status
      then done tt (record { globals = g; schedule = []; outside = o })
      else unfinished
  wait_until test (batch ∷ later) g o =
      let looked = test g.g_ul_status in
      elim looked [
        | true ↦ done tt (record { globals = g; schedule = batch ∷ later; outside = o })
        | false ↦ elim (handle_events common batch g) [
          | done a g' ↦ wait_until test later g' o
          | aborted ↦ aborted
          | fault ↦ fault
          | unfinished ↦ unfinished
        ]
      ]

  abbrev pub waiting : (ℕ → Bool) → Run (Station N) Unit
  waiting test s = wait_until test s.schedule s.globals s.outside

  -- A call, and ASSERT_ON_ERROR of its result.
  abbrev pub asserted : Call → (ℤ → Run (Station N) ℤ) → Run (Station N) ℤ
  asserted c k = call c >>= λ r. if common.assert_on_error r then pure r else k r

  -- Calls of which each is asserted, up to the last.
  abbrev pub all_asserted : List Call → ℤ → (ℤ → Run (Station N) ℤ) → Run (Station N) ℤ
  all_asserted [] r k = k r
  all_asserted (c ∷ cs) r k = asserted c (λ r'. all_asserted cs r' k)

  abbrev pub connected_with_ip : ℕ → Bool
  connected_with_ip status = common.is_connected status && common.is_ip_acquired status

  unfoldable pub wlan_connect : Run (Station N) ℤ
  wlan_connect = asserted sl_wlan_connect (λ r. waiting connected_with_ip >> pure common.success)

  -- DEVICE_NOT_IN_STATION_MODE, -0x7D0 - 9.
  abbrev pub device_not_in_station_mode : ℤ
  device_not_in_station_mode = negsuc 2008

  abbrev pub restart : List Call
  restart = sl_wlan_set_mode common.role_sta ∷ sl_stop_now ∷ sl_start ∷ []

  abbrev pub restart_in_station_mode : (ℤ → Run (Station N) ℤ) → Run (Station N) ℤ
  restart_in_station_mode k =
      all_asserted restart (pos 0)
        (λ r. if not (int_eq common.role_sta r) then pure device_not_in_station_mode else k r)

  -- Lines 491 to 522.
  abbrev pub in_station_mode : ℤ → (ℤ → Run (Station N) ℤ) → Run (Station N) ℤ
  in_station_mode mode k =
      if not (int_eq common.role_sta mode)
      then ((if int_eq common.role_ap mode then waiting common.is_ip_acquired else pure tt)
          >> restart_in_station_mode k)
      else k mode

  -- Lines 557 to 567.
  abbrev pub disconnect : Run (Station N) Unit
  disconnect = call sl_wlan_disconnect >>= λ r.
      if int_eq (pos 0) r then waiting (λ status. not (common.is_connected status)) else pure tt

  -- Lines 524 to 547, and 569 to 600.
  abbrev pub forget_profiles : List Call
  forget_profiles = sl_dev_get_version ∷ sl_wlan_policy_connection ∷ sl_wlan_profile_del 255 ∷ []

  abbrev pub reset_settings : List Call
  reset_settings =
      sl_net_cfg_set_dhcp
      ∷ sl_wlan_policy_scan
      ∷ sl_wlan_set_tx_power 0
      ∷ sl_wlan_policy_pm
      ∷ sl_net_app_mdns_unregister_service
      ∷ sl_wlan_remove_rx_filters
      ∷ sl_stop_with_timeout
      ∷ []

  -- Lines 602 and 604.
  abbrev pub finish_reset : ℤ → Run (Station N) ℤ
  finish_reset stopped s =
      done stopped (record s { globals = initialize_app_variables common s.globals })

  -- From line 551.
  abbrev pub reset_device : ℤ → Run (Station N) ℤ
  reset_device r = disconnect >> all_asserted reset_settings r finish_reset

  -- From line 524.
  abbrev pub reset_in_station_mode : ℤ → Run (Station N) ℤ
  reset_in_station_mode r = all_asserted forget_profiles r reset_device

  unfoldable pub configure_simple_link_to_default_state : Run (Station N) ℤ
  configure_simple_link_to_default_state =
      asserted sl_start (λ mode. in_station_mode mode reset_in_station_mode)
