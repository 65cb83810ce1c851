-- ===== src/Cc3200/Wlan/Program/Connected.antt =====
-- What holds of the station when main of the CC3200 sample starts the tasks.
use thing_if_thing_sdk.Prelude.{
  Bool, true, false, ℕ, zero, suc, ℤ, pos, negsuc, List, [], ◌∷◌, drop, ◌≡◌, ◌⊎◌, refl, sym,
  Bool-cases, inl, inr, if◌then◌else◌, int_eq, not,
}
use mathlib.Core.Bool.{true≢false}
use thing_if_thing_sdk.Flow.{Outcome, done, fault, aborted, unfinished, Run, continue, pure, ◌>>=◌}
use thing_if_thing_sdk.Cc3200.Sockets.{is_negative}
use thing_if_thing_sdk.Cc3200.Wlan.{Globals, Common, Event, initialize_app_variables}
use thing_if_thing_sdk.Cc3200.Wlan.Driver.{
  Call, sl_start, sl_wlan_connect, sl_wlan_disconnect, Station, waiting, call, all_asserted,
  wlan_connect, connected_with_ip, in_station_mode, restart, forget_profiles, reset_settings,
  restart_in_station_mode, disconnect, configure_simple_link_to_default_state,
  device_not_in_station_mode,
}
use thing_if_thing_sdk.Cc3200.Wlan.Events.{Bits, Wellformed, initialize_app_variables-Wellformed}
use thing_if_thing_sdk.Cc3200.Wlan.Waiting.{
  ScheduleReadable, Waits, wait_until-Waits, call-returns, arrived, wlan_connect-Waits,
}
use thing_if_thing_sdk.Cc3200.Wlan.Program.{
  Rtos, Ending, loops_forever, returned, start_tasks, unless_negative, main,
}

-- What holds where a run ends, which may wait for ever, but does not fault.
abbrev pub Ends : {S A : Type 0} → (A → S → Type 0) → Outcome S A → Type 0
Ends P (done a s) = P a s
Ends P unfinished = Unit
Ends P aborted = ⊥
Ends P fault = ⊥

Ends-continue :
    {S A B : Type 0} (P : A → S → Type 0) (Q : B → S → Type 0) (f : A → Run S B) (r : Outcome S A)
    → Ends P r
    → ((a : A) (t : S) → P a t → Ends Q (f a t))
    → Ends Q (continue f r)
Ends-continue P Q f (done a t) h k = k a t h
Ends-continue P Q f unfinished h k = tt
Ends-continue P Q f aborted h k = absurd h
Ends-continue P Q f fault h k = absurd h

Ends-weaken :
    {S A : Type 0} (P Q : A → S → Type 0) (r : Outcome S A)
    → ((a : A) (s : S) → P a s → Q a s)
    → Ends P r
    → Ends Q r
Ends-weaken P Q (done a t) f h = f a t h
Ends-weaken P Q unfinished f h = tt
Ends-weaken P Q aborted f h = h
Ends-weaken P Q fault f h = h

-- Events that are readable, and arrays that are well formed.
abbrev pub Safe : {N : Type 0} → Common → Station N → Type 0
Safe common s = ScheduleReadable common s.schedule × Wellformed common s.globals

pub drop-ScheduleReadable :
    (common : Common) (k : ℕ) (schedule : List (List Event))
    → ScheduleReadable common schedule
    → ScheduleReadable common (drop k schedule)
drop-ScheduleReadable common zero schedule h = h
drop-ScheduleReadable common (suc k) [] h = h
drop-ScheduleReadable common (suc k) (batch ∷ later) h = drop-ScheduleReadable common k later h.1

-- How main ends: it does not start the tasks, or it does with a connection and an IP address, and
-- returns 0.
abbrev pub Started : {N : Type 0} → Common → (Call → N → ℤ × N) → Ending → Station N → Type 0
Started common perform loops_forever s = Unit
Started common perform (returned r) s =
    (r ≡ pos 0) × (connected_with_ip common perform s.globals.g_ul_status ≡ true)

module _ {N : Type 0} (common : Common) (bits : Bits common) (perform : Call → N → ℤ × N) where
  -- A step that keeps a station safe.
  abbrev Keeps : {A : Type 0} → Run (Station N) A → Type 0
  Keeps m = (s : Station N) → Safe common s → Ends (λ _ t. Safe common t) (m s)

  Keeps-bind :
      {A B : Type 0} (m : Run (Station N) A) (f : A → Run (Station N) B)
      → Keeps m
      → ((a : A) → Keeps (f a))
      → Keeps (m >>= f)
  Keeps-bind m f h k s safe =
      Ends-continue (λ _ t. Safe common t) (λ _ t. Safe common t) f (m s) (h s safe) (λ a t. k a t)

  Keeps-if :
      {A : Type 0} (b : Bool) (m n : Run (Station N) A)
      → Keeps m
      → Keeps n
      → Keeps (if b then m else n)
  Keeps-if true m n h k = h
  Keeps-if false m n h k = k

  call-Keeps : (c : Call) → Keeps (call common perform c)
  call-Keeps c s safe =
      let (g, arrival, e, w, h) =
        call-returns common bits perform c s.schedule s.globals s.outside safe.0 safe.1 in
      rw e (h, w)

  Waits-Safe :
      {A : Type 0} (test : ℕ → Bool) (a : A) (schedule : List (List Event)) (g : Globals)
      (r : Outcome (Station N) A)
      → ScheduleReadable common schedule
      → Waits common test a schedule g r
      → Ends (λ b t. Safe common t × (test t.globals.g_ul_status ≡ true)) r
  Waits-Safe test a schedule g (done b s) h (same, holds, w, (k, e, rest, fails)) =
      ((rw rest (drop-ScheduleReadable common k schedule h), w), holds)
  Waits-Safe test a schedule g unfinished h never = tt
  Waits-Safe test a schedule g aborted h x = x
  Waits-Safe test a schedule g fault h x = x

  waiting-Keeps : (test : ℕ → Bool) → Keeps (waiting common perform test)
  waiting-Keeps test s safe =
      Ends-weaken (λ _ t. Safe common t × (test t.globals.g_ul_status ≡ true))
        (λ _ t. Safe common t) (waiting common perform test s) (λ _ t h. h.0)
        (Waits-Safe test tt s.schedule s.globals (waiting common perform test s) safe.0
          (wait_until-Waits common bits perform test s.schedule s.globals s.outside safe.0 safe.1))

  all_asserted-Keeps :
      (cs : List Call) (r : ℤ) (k : ℤ → Run (Station N) ℤ)
      → ((r' : ℤ) → Keeps (k r'))
      → Keeps (all_asserted common perform cs r k)
  all_asserted-Keeps [] r k h = h r
  all_asserted-Keeps (c ∷ cs) r k h = Keeps-bind (call common perform c) _ (call-Keeps c) (λ r'.
      Keeps-if (common.assert_on_error r') _ _ (λ s safe. safe) (all_asserted-Keeps cs r' k h))

  in_station_mode-Keeps :
      (mode : ℤ) (k : ℤ → Run (Station N) ℤ)
      → ((r : ℤ) → Keeps (k r))
      → Keeps (in_station_mode common perform mode k)
  in_station_mode-Keeps mode k h =
      Keeps-if (not (int_eq common.role_sta mode)) _ _
        (Keeps-bind
          (if int_eq common.role_ap mode
            then waiting common perform common.is_ip_acquired
            else pure tt)
          (λ _. restart_in_station_mode common perform k)
          (Keeps-if (int_eq common.role_ap mode) _ _ (waiting-Keeps common.is_ip_acquired)
            (λ s safe. safe))
          (λ _. all_asserted-Keeps (restart common perform) (pos 0) _ (λ r.
            Keeps-if (not (int_eq common.role_sta r))
              (pure (device_not_in_station_mode common perform)) (k r) (λ s safe. safe) (h r))))
        (h mode)

  disconnect-Keeps : Keeps (disconnect common perform)
  disconnect-Keeps =
      Keeps-bind (call common perform sl_wlan_disconnect) _ (call-Keeps sl_wlan_disconnect) (λ r.
        Keeps-if (int_eq (pos 0) r) _ _ (waiting-Keeps (λ status. not (common.is_connected status)))
          (λ s safe. safe))

  configure_simple_link_to_default_state-Keeps :
      Keeps (configure_simple_link_to_default_state common perform)
  unfolding configure_simple_link_to_default_state
  configure_simple_link_to_default_state-Keeps =
      all_asserted-Keeps (sl_start ∷ []) (pos 0) _ (λ mode. in_station_mode-Keeps mode _ (λ r.
        all_asserted-Keeps (forget_profiles common perform) r _ (λ r'.
          Keeps-bind (disconnect common perform) _ disconnect-Keeps (λ _.
            all_asserted-Keeps (reset_settings common perform) r' _ (λ stopped s safe.
              (safe.0, initialize_app_variables-Wellformed common bits s.globals))))))

  -- After WlanConnect, whose error is one of ASSERT_ON_ERROR.
  wlan_connect-Ends :
      (s : Station N)
      → Safe common s
      → Ends
          (λ r t.
            (common.assert_on_error r ≡ true)
            ⊎ (connected_with_ip common perform t.globals.g_ul_status ≡ true))
          (wlan_connect common perform s)
  wlan_connect-Ends s safe =
      let (g, arrival, failed, waits) = wlan_connect-Waits common bits perform s safe.0 safe.1 in
      elim (Bool-cases (common.assert_on_error (perform sl_wlan_connect s.outside).0)) [
        | inl error ↦ rw (failed error) (inl error)
        | inr fine ↦
            Ends-weaken
              (λ _ t.
                Safe common t × (connected_with_ip common perform t.globals.g_ul_status ≡ true))
              _ (wlan_connect common perform s) (λ _ t h. inr h.1)
              (Waits-Safe (connected_with_ip common perform) common.success _ g
                (wlan_connect common perform s)
                (drop-ScheduleReadable common (arrived common bits perform s.schedule) s.schedule
                  safe.0)
                (waits fine))
      ]

  module _ (rtos : Rtos N)
      (negative : (r : ℤ) → common.assert_on_error r ≡ true → is_negative r ≡ true) where
    start_tasks-Started :
        (s : Station N)
        → connected_with_ip common perform s.globals.g_ul_status ≡ true
        → Ends (Started common perform) (start_tasks common perform rtos s)
    start_tasks-Started s h =
        elim (Bool-cases (not (int_eq (rtos.osi_msg_q_create s.outside).0 rtos.osi_ok))) [
          | inl failed ↦ rw failed tt
          | inr created ↦ rw created (refl, h)
        ]

    unless_negative-Started :
        (go : Run (Station N) Ending) (r : ℤ) (s : Station N)
        → (is_negative r ≡ false → Ends (Started common perform) (go s))
        → Ends (Started common perform) (unless_negative common perform rtos go r s)
    unless_negative-Started go (pos n) s h = h refl
    unless_negative-Started go (negsuc n) s h = tt

    connected-Started :
        (r : ℤ) (t : Station N)
        → (common.assert_on_error r ≡ true)
          ⊎ (connected_with_ip common perform t.globals.g_ul_status ≡ true)
        → Ends
            (Started common perform)
            (unless_negative common perform rtos (start_tasks common perform rtos) r t)
    connected-Started (negsuc n) t h = tt
    connected-Started (pos n) t (inl error) = absurd (true≢false (sym (negative (pos n) error)))
    connected-Started (pos n) t (inr connected) = start_tasks-Started t connected

    -- With readable events, and where ASSERT_ON_ERROR takes only negative results for errors, main
    -- accesses nothing outside an array. It waits for ever, or it loops for ever without starting the
    -- tasks, or it starts them with a connection and an IP address and returns 0.
    pub main-Connected :
        (s : Station N)
        → ScheduleReadable common s.schedule
        → Ends (Started common perform) (main common perform rtos s)
    unfolding main
    main-Connected s h =
        let set_up : Station N = record s {
          globals = initialize_app_variables common s.globals;
          outside = rtos.set_up s.outside;
        } in
        Ends-continue (λ _ t. Safe common t) (Started common perform) _
          (configure_simple_link_to_default_state common perform set_up)
          (configure_simple_link_to_default_state-Keeps set_up
            (h, initialize_app_variables-Wellformed common bits s.globals))
          (λ r t safe. unless_negative-Started _ r t (λ _.
            Ends-continue (λ _ t'. Safe common t') (Started common perform) _
              (call common perform sl_start t) (call-Keeps sl_start t safe)
              (λ r' t' safe'. unless_negative-Started _ r' t' (λ _.
                Ends-continue _ (Started common perform) _ (wlan_connect common perform t')
                  (wlan_connect-Ends t' safe') connected-Started))))
