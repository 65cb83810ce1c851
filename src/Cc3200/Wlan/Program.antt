-- ===== src/Cc3200/Wlan/Program.antt =====
-- main of cc3200-sample/freertos_thingsdk_demo/main.c. The macros LOOP_FOREVER and `while(1)` are an ending. The first calls, from BoardInit to
-- ClearTerm, set up the board's registers and the terminal and are one parameter.
pub mod Outside
pub mod Connected
pub mod Reset
pub mod Starts
use thing_if_thing_sdk.Prelude.{
  Bool, true, false, Bytes, codes, ℕ, ◌*◌, ℤ, pos, int_eq, List, [], ◌∷◌, drop, not, ◌≡◌, refl,
  Bool-cases, inl, inr, if◌then◌else◌,
}
use mathlib.Core.Bool.{true≢false}
use thing_if_thing_sdk.Flow.{
  Outcome, done, fault, aborted, unfinished, Run, continue, pure, ◌>>=◌, ◌>>◌,
}
use thing_if_thing_sdk.Cc3200.Sockets.{is_negative}
use thing_if_thing_sdk.Cc3200.Wlan.{Globals, Common, Event, initialize_app_variables}
use thing_if_thing_sdk.Cc3200.Wlan.Driver.{
  Call, sl_start, sl_wlan_connect, Station, wait_until, waiting, call, asserted, all_asserted,
  wlan_connect, connected_with_ip, in_station_mode, restart_in_station_mode, disconnect,
  configure_simple_link_to_default_state, device_not_in_station_mode,
}

-- What a task runs; vCmdTask itself is not modelled.
pub data TaskFunction : Type 0 where
  v_cmd_task : TaskFunction

-- The operating system.
pub record Rtos (N : Type 0) : Type 0 where
  pub set_up : N → N
  pub osi_msg_q_create : N → ℤ × N
  pub osi_lock_obj_create : N → ℤ × N
  -- the function, the name, the size of the stack and the priority; the parameter is NULL
  pub osi_task_create : TaskFunction → Bytes → ℕ → ℕ → N → ℤ × N
  pub osi_start : N → N
  pub osi_ok : ℤ

pub data Ending : Type 0 where
  loops_forever : Ending
  returned : ℤ → Ending

module _ {N : Type 0} (common : Common) (perform : Call → N → ℤ × N) (rtos : Rtos N) where
  -- Lines 1049 to 1080.
  abbrev pub start_tasks : Run (Station N) Ending
  start_tasks s =
      let (r, o1) = rtos.osi_msg_q_create s.outside in
      if not (int_eq r rtos.osi_ok)
      then done loops_forever (record s { outside = o1 })
      else let (locked, o2) = rtos.osi_lock_obj_create o1 in
        let (task, o3) = rtos.osi_task_create v_cmd_task (codes "CMDTASK") (2048 * 10) 1 o2 in
        done (returned (pos 0)) (record s { outside = rtos.osi_start o3 })

  -- `if(lRetVal < 0) LOOP_FOREVER()`
  abbrev pub unless_negative : Run (Station N) Ending → ℤ → Run (Station N) Ending
  unless_negative go r = if is_negative r then pure loops_forever else go

  unfoldable pub main : Run (Station N) Ending
  main s =
      (configure_simple_link_to_default_state common perform
          >>= unless_negative (
              call common perform sl_start
              >>= unless_negative (wlan_connect common perform >>= unless_negative start_tasks)))
        (record s {
          globals = initialize_app_variables common s.globals;
          outside = rtos.set_up s.outside;
        })
