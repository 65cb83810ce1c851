-- ===== src/Cc3200/Wlan/Program/Starts.antt =====
-- main of the CC3200 sample on a device whose calls succeed.
use thing_if_thing_sdk.Prelude.{
  Bool, true, ℕ, suc, ℤ, pos, codes, List, [], ◌∷◌, ◌++◌, drop, some, ◌≡◌, refl, sym, ap, ◌∙◌,
}
use mathlib.Core.Bool.{true≢false}
use mathlib.Core.Path.{subst}
use thing_if_thing_sdk.Flow.{
  Outcome, done, fault, aborted, unfinished, Returns, Ensures, Returns-weaken, continue,
}
use thing_if_thing_sdk.Cc3200.Wlan.{Globals, Common, Event, initialize_app_variables}
use thing_if_thing_sdk.Cc3200.Wlan.Driver.{
  Call, sl_start, sl_wlan_connect, Station, wlan_connect, connected_with_ip,
}
use thing_if_thing_sdk.Cc3200.Wlan.Events.{Bits, initialize_app_variables-Wellformed}
use thing_if_thing_sdk.Cc3200.Wlan.Waiting.{
  ScheduleReadable, Waits, after_batches, arrived, wlan_connect-Waits,
}
use thing_if_thing_sdk.Cc3200.Wlan.Program.{
  Rtos, v_cmd_task, returned, start_tasks, unless_negative, main,
}
use thing_if_thing_sdk.Cc3200.Wlan.Program.Outside.{
  after_calls, wlan_connect-Leaves, Returns-Ensures,
}
use thing_if_thing_sdk.Cc3200.Wlan.Program.Connected.{Safe}
use thing_if_thing_sdk.Cc3200.Wlan.Program.Reset.{
  reset_calls, Accepts, At, drop_one, drop-arrived, later_batches, call-goes,
  configure_simple_link_to_default_state-Reset,
}

-- The calls of main to the driver, in order.
abbrev pub fourteen_calls : List Call
fourteen_calls = reset_calls ++ (sl_start ∷ sl_wlan_connect ∷ [])

-- The world outside once the queue, the lock and the task of the commands are created and the scheduler
-- is started.
abbrev pub tasks_started : {N : Type 0} → Rtos N → N → N
tasks_started rtos o =
    let (r, o1) = rtos.osi_msg_q_create o in
    let (locked, o2) = rtos.osi_lock_obj_create o1 in
    let (task, o3) = rtos.osi_task_create v_cmd_task (codes "CMDTASK") 20480 1 o2 in
    rtos.osi_start o3

module _ {N : Type 0} (common : Common) (perform : Call → N → ℤ × N) (rtos : Rtos N) where
  module _ (bits : Bits common) (accepts : Accepts common perform rtos)
      (xs : List (List Event)) where
    -- The events that come after the reset bring a connection and an IP address, though not before
    -- the calls of sl_Start and sl_WlanConnect.
    abbrev pub Connecting : Type 0
    Connecting =
        (g : Globals)
        → (k : ℕ) × (g' : Globals) × (after_batches common (suc (suc k)) (drop 12 xs)
              (initialize_app_variables common g)
            ≡ some g')
          × (connected_with_ip common perform g'.g_ul_status ≡ true)

    -- A wait for what holds after some batch ends.
    wait-ends :
        (test : ℕ → Bool) (later : List (List Event)) (g g' : Globals) (k : ℕ)
        → after_batches common k later g ≡ some g'
        → test g'.g_ul_status ≡ true
        → (r : Outcome (Station N) ℤ) → Waits common test common.success later g r
        → Returns (λ a t. (a ≡ common.success) × (test t.globals.g_ul_status ≡ true)) r
    wait-ends test later g g' k e on (done a t) w = (w.0, w.1)
    wait-ends test later g g' k e on unfinished never = absurd (true≢false (sym on ∙ never k g' e))
    wait-ends test later g g' k e on aborted w = absurd w
    wait-ends test later g g' k e on fault w = absurd w

    -- Connected with an IP address, with a world outside.
    abbrev pub OnlineAt : N → Station N → Type 0
    OnlineAt o t = (connected_with_ip common perform t.globals.g_ul_status ≡ true) × (t.outside ≡ o)

    wlan_connect-ends :
        (o : N) (s : Station N) (g' : Globals) (k : ℕ)
        → s.outside ≡ o
        → Safe common s
        → after_batches common (suc k) s.schedule s.globals ≡ some g'
        → connected_with_ip common perform g'.g_ul_status ≡ true
        → Returns
            (λ a t. (a ≡ common.success) × OnlineAt (perform sl_wlan_connect o).1 t)
            (wlan_connect common perform s)
    wlan_connect-ends o s g' k same safe e on =
        let (g, arrival, failed, waits) = wlan_connect-Waits common bits perform s safe.0 safe.1 in
        Returns-weaken _ _ (wlan_connect common perform s) (λ _ _ h. (h.0.0, (h.0.1, h.1)))
          (Returns-Ensures _ _ (wlan_connect common perform s)
            (wait-ends (connected_with_ip common perform)
              (drop (arrived common bits perform s.schedule) s.schedule) g g' k
              (rw (drop-arrived common bits perform s.schedule)
                (later_batches common bits perform s.schedule s.globals g g' k arrival e))
              on (wlan_connect common perform s)
              (waits (accepts.fine sl_wlan_connect s.outside refl)))
            (subst
              (λ u.
                Ensures (λ _ t. t.outside ≡ (perform sl_wlan_connect u).1)
                  (wlan_connect common perform s))
              same (wlan_connect-Leaves common perform s)))

    -- One batch further.
    still_coming :
        (n : ℕ) (o1 o2 : N) (s1 s2 : Station N) (g' : Globals) (k : ℕ)
        → At common perform rtos bits accepts xs n o1 s1
        → At common perform rtos bits accepts xs (suc n) o2 s2
        → after_batches common (arrived common bits perform s1.schedule) s1.schedule s1.globals
          ≡ some s2.globals
        → after_batches common (suc k) (drop n xs) s1.globals ≡ some g'
        → after_batches common k s2.schedule s2.globals ≡ some g'
    still_coming n o1 o2 s1 s2 g' k (place1, same1, safe1) (place2, same2, safe2) arrival e =
        subst (λ ys. after_batches common k ys s2.globals ≡ some g')
          (ap (drop 1) place1 ∙ drop_one n xs ∙ sym place2)
          (later_batches common bits perform s1.schedule s1.globals s2.globals g' k arrival
            (subst (λ ys. after_batches common (suc k) ys s1.globals ≡ some g') (sym place1) e))

    start_tasks-Returns :
        (o : N) (s : Station N)
        → OnlineAt o s
        → Returns
            (λ ending t. (ending ≡ returned (pos 0)) × OnlineAt (tasks_started rtos o) t)
            (start_tasks common perform rtos s)
    start_tasks-Returns o s (on, same) =
        rw (accepts.queue s.outside) (refl, (on, ap (tasks_started rtos) same))

    -- After the reset: the start, the connection and the tasks.
    connected-starts :
        (o : N) (r : Outcome (Station N) ℤ)
        → Returns (λ a t. (a ≡ common.success) × OnlineAt o t) r
        → Returns
            (λ ending t. (ending ≡ returned (pos 0)) × OnlineAt (tasks_started rtos o) t)
            (continue (unless_negative common perform rtos (start_tasks common perform rtos)) r)
    connected-starts o (done a t) (e, on) = rw (e, accepts.success) (start_tasks-Returns o t on)
    connected-starts o aborted h = absurd h
    connected-starts o fault h = absurd h
    connected-starts o unfinished h = absurd h

  module _ (bits : Bits common) (accepts : Accepts common perform rtos) where
    -- On a device that is in station mode and not connected, whose calls succeed, with readable events
    -- that bring a connection and an IP address after the reset, main makes the twelve calls that
    -- reset the device, starts and connects it, creates the queue, the lock and the task of the
    -- commands, starts the scheduler, and returns 0, connected and with an IP address.
    pub main-starts :
        (s : Station N)
        → ScheduleReadable common s.schedule
        → Connecting bits accepts s.schedule
        → Returns
            (λ ending t.
              (ending ≡ returned (pos 0))
              × ((connected_with_ip common perform t.globals.g_ul_status ≡ true)
                  × (t.outside
                      ≡ tasks_started rtos
                          (after_calls perform fourteen_calls (rtos.set_up s.outside)))))
            (main common perform rtos s)
    unfolding main
    main-starts s h connecting =
        let xs = s.schedule in
        let set_up : Station N = record s {
          globals = initialize_app_variables common s.globals;
          outside = rtos.set_up s.outside;
        } in
        let o = rtos.set_up s.outside in
        let o12 = after_calls perform reset_calls o in
        let o13 = (perform sl_start o12).1 in
        let (stopped, s1, e1, positive, (g, cleared), at_12) =
          configure_simple_link_to_default_state-Reset common perform rtos bits accepts xs o set_up
            (refl, refl, (h, initialize_app_variables-Wellformed common bits s.globals)) in
        let (s2, e2, arrival, at_13) =
          call-goes common perform rtos bits accepts xs sl_start 12 o12 s1 at_12 in
        let (k, g', e, on) = connecting g in
        let coming = still_coming bits accepts xs 12 o12 o13 s1 s2 g' (suc k) at_12 at_13 arrival (
          subst (λ t. after_batches common (suc (suc k)) (drop 12 xs) t ≡ some g') (sym cleared)
            e) in
        rw (e1, positive, e2, accepts.nonnegative sl_start s1.outside refl)
          (connected-starts bits accepts xs (perform sl_wlan_connect o13).1
            (wlan_connect common perform s2)
            (wlan_connect-ends bits accepts xs o13 s2 g' k at_13.1 at_13.2 coming on))
