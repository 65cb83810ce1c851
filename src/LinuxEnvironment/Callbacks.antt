-- ===== src/LinuxEnvironment/Callbacks.antt =====
-- The tasks of linux-sample/linux-env/task_impl.c, and the callbacks of linux-sample/sys_cb_linux.c.
use thing_if_thing_sdk.Prelude.{Bytes, ℕ, ◌%◌, ◌^◌, ◌*◌, ℤ, pos, int_eq, if◌then◌else◌}
use thing_if_thing_sdk.Kii.{Entry, TaskParam}
use thing_if_thing_sdk.Flow.{done, Run, pure, ◌>>=◌}
use thing_if_thing_sdk.LinuxEnvironment.{
  SocketCode, Machine, System, ask, s_connect_cb, s_send_cb, s_recv_cb, s_close_cb,
}

-- kii_task_code_t
pub data TaskCode : Type 0 where
  task_ok task_fail : TaskCode

module _ {N : Type 0} (system : System N) where
  unfoldable pub task_create_cb : Bytes → Entry → TaskParam → Run (Machine N) TaskCode
  task_create_cb name entry param = do
    ret ← ask (system.pthread_create entry param)
    pure (if int_eq ret (pos 0) then task_ok else task_fail)

  -- `msec * 1000` in an unsigned int
  unfoldable pub delay_ms_cb : ℕ → Run (Machine N) (Unit {0})
  delay_ms_cb msec m =
      done tt (record m { outside = system.usleep ((msec * 1000) % 2 ^ 32) m.outside })

  -- sys_cb_linux.c, in a build without KII_MQTT_USE_PORT_TCP: both kinds of sockets are the same.
  abbrev pub socket_connect_cb_impl : Bytes → ℕ → Run (Machine N) SocketCode
  socket_connect_cb_impl = s_connect_cb system

  abbrev pub socket_send_cb_impl : Bytes → Run (Machine N) SocketCode
  socket_send_cb_impl = s_send_cb system

  abbrev pub socket_recv_cb_impl : ℕ → Run (Machine N) (SocketCode × Bytes × ℤ)
  socket_recv_cb_impl = s_recv_cb system

  abbrev pub socket_close_cb_impl : Run (Machine N) SocketCode
  socket_close_cb_impl = s_close_cb system

  abbrev pub mqtt_connect_cb_impl : Bytes → ℕ → Run (Machine N) SocketCode
  mqtt_connect_cb_impl = s_connect_cb system

  abbrev pub mqtt_send_cb_impl : Bytes → Run (Machine N) SocketCode
  mqtt_send_cb_impl = s_send_cb system

  abbrev pub mqtt_recv_cb_impl : ℕ → Run (Machine N) (SocketCode × Bytes × ℤ)
  mqtt_recv_cb_impl = s_recv_cb system

  abbrev pub mqtt_close_cb_impl : Run (Machine N) SocketCode
  mqtt_close_cb_impl = s_close_cb system

  abbrev pub task_create_cb_impl : Bytes → Entry → TaskParam → Run (Machine N) TaskCode
  task_create_cb_impl = task_create_cb

  abbrev pub delay_ms_cb_impl : ℕ → Run (Machine N) (Unit {0})
  delay_ms_cb_impl = delay_ms_cb
