-- ===== src/Cc3200/Wlan.antt =====
-- The network of the CC3200 sample, cc3200-sample/freertos_thingsdk_demo/main.c. Here are its variables
-- and the handlers of the SimpleLink events; Driver has the calls of the driver, Program main. UART_PRINT,
-- Report and the terminal are left out. The status bits are macros of the SimpleLink SDK's common.h, so
-- they are parameters.
pub mod Events
pub mod Driver
pub mod Waiting
pub mod Program
use thing_if_thing_sdk.Prelude.{
  Bool, true, false, Bytes, length, take, drop, ℕ, zero, suc, ◌+◌, ℤ, pos, negsuc, int_eq, List, [],
  ◌∷◌, ◌++◌, Option, none, some, ◌&&◌, ◌||◌, not, leb, if◌then◌else◌,
}
use thing_if_thing_sdk.Flow.{Outcome, done, fault, aborted, unfinished, Run, pure, ◌>>=◌, ◌>>◌}
use thing_if_thing_sdk.Cc3200.Sockets.{is_negative}

-- The variables that InitializeAppVariables and the handlers set.
pub record Globals : Type 0 where
  pub g_ul_status : ℕ
  pub g_ul_gateway_ip : ℕ
  pub g_uc_connection_ssid : Bytes
  pub g_uc_connection_bssid : Bytes
  pub g_ul_destination_ip : ℕ
  pub g_ui_port_num : ℕ
  pub g_ul_packet_count : ℕ
  pub g_ul_ip_addr : ℕ

pub data WlanEvent : Type 0 where
  -- ssid_name, ssid_len and bssid
  sta_connected : Bytes → ℕ → Bytes → WlanEvent
  -- reason_code
  sta_disconnected : ℕ → WlanEvent
  other_wlan_event : WlanEvent

pub data NetAppEvent : Type 0 where
  -- ip and gateway
  ip_acquired : ℕ → ℕ → NetAppEvent
  other_net_app_event : NetAppEvent

-- A call of a handler with its pointer, which may be NULL.
pub data Event : Type 0 where
  wlan_event : Option WlanEvent → Event
  net_app_event : Option NetAppEvent → Event

-- common.h and the settings of SimpleLink.
pub record Common : Type 0 where
  pub status_bit_connection : ℕ
  pub status_bit_ip_aquired : ℕ
  -- SET_STATUS_BIT and CLR_STATUS_BIT, with the variable first
  pub set_status_bit : ℕ → ℕ → ℕ
  pub clr_status_bit : ℕ → ℕ → ℕ
  pub is_connected : ℕ → Bool
  pub is_ip_acquired : ℕ → Bool
  -- whether the macro returns the code from the function it stands in
  pub assert_on_error : ℤ → Bool
  pub success : ℤ
  pub ssid_len_max : ℕ
  pub bssid_len_max : ℕ
  pub sl_bssid_length : ℕ
  pub role_sta : ℤ
  pub role_ap : ℤ

-- 192.168.0.22
abbrev pub ip_addr : ℕ
ip_addr = 3232235542

abbrev pub port_num : ℕ
port_num = 5201

abbrev pub tcp_packet_count : ℕ
tcp_packet_count = 1

abbrev pub zeros : ℕ → Bytes
zeros zero = []
zeros (suc n) = 0 ∷ zeros n

-- memcpy of the first bytes of an array, which has to have them, into one that has to have room.
abbrev pub copy : ℕ → Bytes → Bytes → Option Bytes
copy n source target =
    if leb n (length source) && leb n (length target)
    then some (take n source ++ drop n target)
    else none

-- What follows a memcpy.
abbrev pub after : {S A : Type 0} → Option Bytes → (Bytes → Run S A) → Run S A
after (some bytes) f = f bytes
after none f = λ s. fault

module _ (common : Common) where
  unfoldable pub initialize_app_variables : Globals → Globals
  initialize_app_variables g = record {
    g_ul_status = 0;
    g_ul_gateway_ip = 0;
    g_uc_connection_ssid = zeros (suc common.ssid_len_max);
    g_uc_connection_bssid = zeros common.bssid_len_max;
    g_ul_destination_ip = ip_addr;
    g_ui_port_num = port_num;
    g_ul_packet_count = tcp_packet_count;
    g_ul_ip_addr = g.g_ul_ip_addr;
  }

  unfoldable pub simple_link_wlan_event_handler : Option WlanEvent → Run Globals Unit
  simple_link_wlan_event_handler none g = done tt g
  simple_link_wlan_event_handler (some (sta_connected ssid_name ssid_len bssid)) g =
      after (copy ssid_len ssid_name g.g_uc_connection_ssid)
        (λ ssid. after (copy common.sl_bssid_length bssid g.g_uc_connection_bssid) (λ bssid' g'.
          done tt (record g' {
            g_ul_status = common.set_status_bit g'.g_ul_status common.status_bit_connection;
            g_uc_connection_ssid = ssid;
            g_uc_connection_bssid = bssid';
          })))
        g
  simple_link_wlan_event_handler (some (sta_disconnected reason_code)) g =
      let status = common.clr_status_bit g.g_ul_status common.status_bit_connection in
      done tt (record g {
        g_ul_status = common.clr_status_bit status common.status_bit_ip_aquired;
        g_uc_connection_ssid = zeros (suc common.ssid_len_max);
        g_uc_connection_bssid = zeros common.bssid_len_max;
      })
  simple_link_wlan_event_handler (some other_wlan_event) g = done tt g

  unfoldable pub simple_link_net_app_event_handler : Option NetAppEvent → Run Globals Unit
  simple_link_net_app_event_handler none g = done tt g
  simple_link_net_app_event_handler (some (ip_acquired ip gateway)) g = done tt (record g {
    g_ul_status = common.set_status_bit g.g_ul_status common.status_bit_ip_aquired;
    g_ul_ip_addr = ip;
    g_ul_gateway_ip = gateway;
  })
  simple_link_net_app_event_handler (some other_net_app_event) g = done tt g

  abbrev pub handle_event : Event → Run Globals Unit
  handle_event (wlan_event e) = simple_link_wlan_event_handler e
  handle_event (net_app_event e) = simple_link_net_app_event_handler e

  abbrev pub handle_events : List Event → Run Globals Unit
  handle_events [] = pure tt
  handle_events (e ∷ es) = handle_event e >> handle_events es
