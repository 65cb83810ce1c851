-- ===== src/Cc3200/Wlan/Program/Reset.antt =====
-- How the CC3200 sample resets a device whose calls succeed, and which batches of events are left.
use thing_if_thing_sdk.Prelude.{
  Bool, true, false, ℕ, zero, suc, ℤ, pos, int_eq, List, [], ◌∷◌, drop, some, ◌≡◌, refl, ap, ◌∙◌,
}
use mathlib.Core.Option.{none-ne-some}
use thing_if_thing_sdk.Flow.{Outcome, done, fault, aborted, unfinished, Run}
use thing_if_thing_sdk.Cc3200.Sockets.{is_negative}
use thing_if_thing_sdk.Cc3200.Wlan.{Globals, Common, Event, initialize_app_variables, handle_events}
use thing_if_thing_sdk.Cc3200.Wlan.Driver.{
  Call, sl_start, sl_wlan_disconnect, sl_dev_get_version, sl_wlan_policy_connection,
  sl_wlan_profile_del, sl_net_cfg_set_dhcp, sl_wlan_policy_scan, sl_wlan_set_tx_power,
  sl_wlan_policy_pm, sl_net_app_mdns_unregister_service, sl_wlan_remove_rx_filters,
  sl_stop_with_timeout, Station, call, asserted, all_asserted, in_station_mode, forget_profiles,
  reset_settings, configure_simple_link_to_default_state, finish_reset, reset_device,
  reset_in_station_mode,
}
use thing_if_thing_sdk.Cc3200.Wlan.Events.{Bits, initialize_app_variables-Wellformed}
use thing_if_thing_sdk.Cc3200.Wlan.Waiting.{after_batches, call-returns, arrived}
use thing_if_thing_sdk.Cc3200.Wlan.Program.{Rtos}
use thing_if_thing_sdk.Cc3200.Wlan.Program.Outside.{after_calls}
use thing_if_thing_sdk.Cc3200.Wlan.Program.Connected.{Safe}

-- sl_WlanDisconnect is the call whose result is not asserted: it reports that there was no connection.
abbrev pub asserts : Call → Bool
asserts sl_wlan_disconnect = false
asserts _ = true

-- The calls that reset a device in station mode, in order.
abbrev pub reset_calls : List Call
reset_calls =
    sl_start
    ∷ sl_dev_get_version
    ∷ sl_wlan_policy_connection
    ∷ sl_wlan_profile_del 255
    ∷ sl_wlan_disconnect
    ∷ sl_net_cfg_set_dhcp
    ∷ sl_wlan_policy_scan
    ∷ sl_wlan_set_tx_power 0
    ∷ sl_wlan_policy_pm
    ∷ sl_net_app_mdns_unregister_service
    ∷ sl_wlan_remove_rx_filters
    ∷ sl_stop_with_timeout
    ∷ []

abbrev AllAssert : List Call → Type 0
AllAssert [] = Unit
AllAssert (c ∷ cs) = (asserts c ≡ true) × AllAssert cs

abbrev advance : List Call → ℕ → ℕ
advance [] n = n
advance (c ∷ cs) n = advance cs (suc n)

pub drop_one : (n : ℕ) (xs : List (List Event)) → drop 1 (drop n xs) ≡ drop (suc n) xs
drop_one zero xs = refl
drop_one (suc n) [] = refl
drop_one (suc n) (x ∷ xs) = drop_one n xs

pub drop-arrived :
    {N : Type 0} (common : Common) (bits : Bits common) (perform : Call → N → ℤ × N)
    (xs : List (List Event))
    → drop (arrived common bits perform xs) xs ≡ drop 1 xs
drop-arrived common bits perform [] = refl
drop-arrived common bits perform (x ∷ xs) = refl

-- The batches behind those of one call.
pub later_batches :
    {N : Type 0} (common : Common) (bits : Bits common) (perform : Call → N → ℤ × N)
    (xs : List (List Event)) (g g1 g' : Globals) (k : ℕ)
    → after_batches common (arrived common bits perform xs) xs g ≡ some g1
    → after_batches common (suc k) xs g ≡ some g'
    → after_batches common k (drop 1 xs) g1 ≡ some g'
later_batches common bits perform [] g g1 g' k e h = absurd (none-ne-some g' h)
later_batches common bits perform (x ∷ xs) g g1 g' k e h = go (handle_events common x g) refl
  where
    go :
        (r : Outcome Globals Unit)
        → handle_events common x g ≡ r
        → after_batches common k xs g1 ≡ some g'
    go (done a g2) handled =
        let first : some g2 ≡ some g1 = rw (handled, after_batches) at e in
        let same : g2 ≡ g1 = cc in
        let rest : after_batches common k xs g2 ≡ some g' = rw (handled, after_batches) at h in
        rw same at rest
    go aborted handled = absurd (none-ne-some g' (rw (handled, after_batches) at h))
    go fault handled = absurd (none-ne-some g' (rw (handled, after_batches) at h))
    go unfinished handled = absurd (none-ne-some g' (rw (handled, after_batches) at h))

module _ {N : Type 0} (common : Common) (perform : Call → N → ℤ × N) (rtos : Rtos N) where
  -- A device that is in station mode and not connected, whose calls succeed.
  pub record Accepts : Type 0 where
    pub fine :
        (c : Call) (o : N) → asserts c ≡ true → common.assert_on_error (perform c o).0 ≡ false
    pub nonnegative : (c : Call) (o : N) → asserts c ≡ true → is_negative (perform c o).0 ≡ false
    pub in_station : (o : N) → int_eq common.role_sta (perform sl_start o).0 ≡ true
    pub not_connected : (o : N) → int_eq (pos 0) (perform sl_wlan_disconnect o).0 ≡ false
    pub success : is_negative common.success ≡ false
    pub queue : (o : N) → int_eq (rtos.osi_msg_q_create o).0 rtos.osi_ok ≡ true

  module _ (bits : Bits common) (accepts : Accepts) (xs : List (List Event)) where
    -- A safe station that has met the first batches of the schedule, with a world outside.
    abbrev pub At : ℕ → N → Station N → Type 0
    At n o s = (s.schedule ≡ drop n xs) × (s.outside ≡ o) × Safe common s

    pub call-goes :
        (c : Call) (n : ℕ) (o : N) (s : Station N)
        → At n o s
        → (s' : Station N) × (call common perform c s ≡ done (perform c s.outside).0 s')
          × (after_batches common (arrived common bits perform s.schedule) s.schedule s.globals
              ≡ some s'.globals)
          × At (suc n) (perform c o).1 s'
    call-goes c n o s (place, same, safe) =
        let (g, arrival, e, w, h) =
          call-returns common bits perform c s.schedule s.globals s.outside safe.0 safe.1 in
        (
          record {
            globals = g;
            schedule = drop (arrived common bits perform s.schedule) s.schedule;
            outside = (perform c s.outside).1;
          },
          e,
          arrival,
          (
            drop-arrived common bits perform s.schedule ∙ ap (drop 1) place ∙ drop_one n xs,
            ap (λ u. (perform c u).1) same,
            (h, w),
          ),
        )

    asserted-goes :
        (c : Call) (k : ℤ → Run (Station N) ℤ) (n : ℕ) (o : N) (s : Station N)
        → asserts c ≡ true
        → At n o s
        → (s' : Station N) × (asserted common perform c k s ≡ k (perform c s.outside).0 s')
          × At (suc n) (perform c o).1 s'
    asserted-goes c k n o s a at_n =
        let (s', e, arrival, at_s') = call-goes c n o s at_n in
        (s', rw (e, accepts.fine c s.outside a) refl, at_s')

    all_asserted-goes :
        (cs : List Call) (r : ℤ) (k : ℤ → Run (Station N) ℤ) (n : ℕ) (o : N) (s : Station N)
        → AllAssert cs
        → is_negative r ≡ false
        → At n o s
        → (r' : ℤ) × (s' : Station N) × (all_asserted common perform cs r k s ≡ k r' s')
          × (is_negative r' ≡ false)
          × At (advance cs n) (after_calls perform cs o) s'
    all_asserted-goes [] r k n o s a positive at_n = (r, s, refl, positive, at_n)
    all_asserted-goes (c ∷ cs) r k n o s (a, rest) positive at_n =
        let (s1, e1, at_1) =
          asserted-goes c (λ r1. all_asserted common perform cs r1 k) n o s a at_n in
        let (r', s', e, positive', at_end) =
          all_asserted-goes cs (perform c s.outside).0 k (suc n) (perform c o).1 s1 rest
            (accepts.nonnegative c s.outside a) at_1 in
        (r', s', e1 ∙ e, positive', at_end)

    -- The device is reset after some batches, with a world outside: the variables are as InitializeAppVariables leaves them.
    abbrev pub Reset : ℕ → N → Outcome (Station N) ℤ → Type 0
    Reset n o r =
        (stopped : ℤ) × (s : Station N) × (r ≡ done stopped s)
        × (is_negative stopped ≡ false)
        × ((g : Globals) × (s.globals ≡ initialize_app_variables common g))
        × At n o s

    finish_reset-Reset :
        (stopped : ℤ) (n : ℕ) (o : N) (s : Station N)
        → is_negative stopped ≡ false
        → At n o s
        → Reset n o (finish_reset common perform stopped s)
    finish_reset-Reset stopped n o s positive (place, same, (h, w)) = (
      stopped,
      record s { globals = initialize_app_variables common s.globals },
      refl,
      positive,
      (s.globals, refl),
      (place, same, (h, initialize_app_variables-Wellformed common bits s.globals)),
    )

    reset_device-Reset :
        (r : ℤ) (n : ℕ) (o : N) (s : Station N)
        → is_negative r ≡ false
        → At n o s
        → Reset
            (advance (reset_settings common perform) (suc n))
            (after_calls perform (reset_settings common perform) (perform sl_wlan_disconnect o).1)
            (reset_device common perform r s)
    reset_device-Reset r n o s positive at_n =
        let (s1, e1, arrival, at_1) = call-goes sl_wlan_disconnect n o s at_n in
        let o1 = (perform sl_wlan_disconnect o).1 in
        let (stopped, s2, e2, positive', at_2) =
          all_asserted-goes (reset_settings common perform) r (finish_reset common perform) (suc n)
            o1 s1 (refl, (refl, (refl, (refl, (refl, (refl, (refl, tt))))))) positive at_1 in
        rw (e1, accepts.not_connected s.outside, e2)
          (finish_reset-Reset stopped (advance (reset_settings common perform) (suc n))
            (after_calls perform (reset_settings common perform) o1) s2 positive' at_2)

    pub configure_simple_link_to_default_state-Reset :
        (o : N) (s : Station N)
        → At 0 o s
        → Reset 12
            (after_calls perform reset_calls o)
            (configure_simple_link_to_default_state common perform s)
    unfolding configure_simple_link_to_default_state
    configure_simple_link_to_default_state-Reset o s at_0 =
        let (s1, e1, at_1) =
          asserted-goes sl_start
            (λ mode. in_station_mode common perform mode (reset_in_station_mode common perform)) 0 o
            s refl at_0 in
        let o1 = (perform sl_start o).1 in
        let mode = (perform sl_start s.outside).0 in
        let (r, s2, e2, positive, at_2) =
          all_asserted-goes (forget_profiles common perform) mode (reset_device common perform) 1 o1
            s1 (refl, (refl, (refl, tt))) (accepts.nonnegative sl_start s.outside refl) at_1 in
        rw (e1, accepts.in_station s.outside, e2)
          (reset_device-Reset r 4 (after_calls perform (forget_profiles common perform) o1) s2
            positive at_2)
