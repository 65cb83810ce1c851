-- ===== src/Cc3200/Sockets.antt =====
-- kii_thing_if_environment_cc3200.c: the callbacks of the CC3200 sample over SimpleLink's sockets and
-- the tasks of its operating system. Report, which only writes to the terminal, is left out.
pub mod Connections
use thing_if_thing_sdk.Prelude.{
  Bool, true, false, Bytes, bytes_eq, ℕ, zero, suc, ◌%◌, ◌^◌, ◌*◌, ℤ, pos, negsuc, minus_one,
  nonzero, List, [], ◌∷◌, Option, none, some, ◌==◌, if◌then◌else◌,
}
use thing_if_thing_sdk.Kii.{Entry, TaskParam}
use thing_if_thing_sdk.Flow.{Outcome, done, fault, aborted, unfinished, Run, pure, ◌>>=◌, ◌>>◌}

-- kii_socket_code_t and kii_task_code_t, of which this code returns these.
pub data SocketCode : Type 0 where
  socket_ok socket_fail : SocketCode

pub data TaskCode : Type 0 where
  task_ok task_fail : TaskCode

-- The open sockets, socket_context->sock, and the device and the network.
pub record Device (N : Type 0) : Type 0 where
  pub opened : List ℕ
  pub sock : ℤ
  pub outside : N

-- SimpleLink, the operating system's tasks, and the Kii SDK's names and settings.
pub record SimpleLink (N : Type 0) : Type 0 where
  -- the result, and the address
  pub get_host_by_name : Bytes → N → ℤ × ℕ × N
  pub socket : N → ℤ × N
  -- SL_SO_RCVTIMEO in seconds
  pub set_receive_timeout : ℕ → ℕ → N → ℤ × N
  pub connect : ℕ → ℕ → ℕ → N → ℤ × N
  pub send : ℤ → Bytes → N → ℤ × N
  pub recv : ℤ → ℕ → N → ℤ × Bytes × N
  pub close : ℤ → N → N
  -- osi_TaskCreate: the function, the name, the size of the stack, the parameter and the priority
  pub task_create : Entry → Bytes → ℕ → TaskParam → ℕ → N → ℤ × N
  pub sleep : ℕ → N → N
  -- KII_PUSH_KEEP_ALIVE_INTERVAL_SECONDS, where it is defined
  pub keep_alive : Option ℕ
  pub task_name_update_status : Bytes
  pub task_name_recv_msg : Bytes
  pub task_name_ping_req : Bytes

abbrev pub is_negative : ℤ → Bool
is_negative (pos n) = false
is_negative (negsuc n) = true

abbrev pub is_positive : ℤ → Bool
is_positive (pos zero) = false
is_positive (pos (suc n)) = true
is_positive (negsuc n) = false

-- The handles that stay open when one is closed.
abbrev pub without : ℕ → List ℕ → List ℕ
without s [] = []
without s (x ∷ xs) = let rest = without s xs in if x == s then xs else x ∷ rest

-- sl_Close of a handle that is not open, such as -1, returns an error, which the code ignores.
abbrev pub without_int : ℤ → List ℕ → List ℕ
without_int (pos s) xs = without s xs
without_int (negsuc n) xs = xs

module _ {N : Type 0} (sl : SimpleLink N) where
  abbrev pub ask : {A : Type 0} → (N → A × N) → Run (Device N) A
  ask f d = let (a, n) = f d.outside in done a (record d { outside = n })

  abbrev pub sl_close : ℤ → Run (Device N) (Unit {0})
  sl_close s d =
      done tt (record d { opened = without_int s d.opened; outside = sl.close s d.outside })

  abbrev pub use_socket : ℤ → Run (Device N) SocketCode
  use_socket s d = done socket_ok (record d { sock = s })

  -- The end of both connect callbacks: connect, or close the socket.
  abbrev pub sl_connect : ℕ → ℕ → ℕ → Run (Device N) SocketCode
  sl_connect sock address port = do
    r ← ask (sl.connect sock address (port % 2 ^ 16))
    if is_negative r then (do sl_close (pos sock); pure socket_fail) else use_socket (pos sock)

  -- A new socket, or an error.
  abbrev pub sl_socket : (ℕ → Run (Device N) SocketCode) → ℤ → Run (Device N) SocketCode
  sl_socket go (negsuc n) = pure socket_fail
  sl_socket go (pos sock) = do (λ d. done tt (record d { opened = sock ∷ d.opened })); go sock

  unfoldable pub socket_connect_cb_impl : Bytes → ℕ → Run (Device N) SocketCode
  socket_connect_cb_impl host port = do
    (r, address) ← ask (λ n. let (r, a, n') = sl.get_host_by_name host n in ((r, a), n'))
    if is_negative r
        then pure socket_fail
        else do sock ← ask sl.socket; sl_socket (λ s. sl_connect s address port) sock

  unfoldable pub socket_send_cb_impl : Bytes → Run (Device N) SocketCode
  socket_send_cb_impl buffer d =
      (do
        ret ← ask (sl.send d.sock buffer)
        pure (if is_positive ret then socket_ok else socket_fail))
        d

  -- The code, the buffer and *out_actual_length, which is only written on success.
  unfoldable pub socket_recv_cb_impl : ℕ → ℤ → Run (Device N) (SocketCode × Bytes × ℤ)
  socket_recv_cb_impl length_to_read actual_length d =
      (do
        (ret, buffer) ← ask (λ n. let (r, b, n') = sl.recv d.sock length_to_read n in ((r, b), n'))
        pure (
            if is_positive ret
            then (socket_ok, buffer, ret)
            else (socket_fail, buffer, actual_length)))
        d

  unfoldable pub socket_close_cb_impl : Run (Device N) SocketCode
  socket_close_cb_impl d =
      (do sl_close d.sock; (λ d'. done tt (record d' { sock = minus_one })); pure socket_ok) d

  -- The timeout for what the push connection receives.
  abbrev pub with_timeout : ℕ → Run (Device N) SocketCode → Run (Device N) SocketCode
  with_timeout sock go = elim sl.keep_alive [
    | none ↦ go
    | some seconds ↦ do
      r ← ask (sl.set_receive_timeout sock (seconds * 2))
      if nonzero r then pure socket_fail else go
  ]

  unfoldable pub mqtt_connect_cb_impl : Bytes → ℕ → Run (Device N) SocketCode
  mqtt_connect_cb_impl host port = do
    (r, address) ← ask (λ n. let (r, a, n') = sl.get_host_by_name host n in ((r, a), n'))
    if is_negative r then pure socket_fail else do
      sock ← ask sl.socket
      sl_socket (λ s. with_timeout s (sl_connect s address port)) sock

  unfoldable pub mqtt_send_cb_impl : Bytes → Run (Device N) SocketCode
  unfolding socket_send_cb_impl
  mqtt_send_cb_impl = socket_send_cb_impl

  unfoldable pub mqtt_recv_cb_impl : ℕ → ℤ → Run (Device N) (SocketCode × Bytes × ℤ)
  unfolding socket_recv_cb_impl
  mqtt_recv_cb_impl = socket_recv_cb_impl

  unfoldable pub mqtt_close_cb_impl : Run (Device N) SocketCode
  unfolding socket_close_cb_impl
  mqtt_close_cb_impl = socket_close_cb_impl

  -- The size of the stack and the priority of a task; without a keep-alive interval the last name is
  -- not known.
  abbrev pub task_settings : Bytes → ℕ × ℕ
  task_settings name =
      if bytes_eq name sl.task_name_update_status
      then (2048, 1)
      else (if bytes_eq name sl.task_name_recv_msg then (4096, 0) else (elim sl.keep_alive [
        | none ↦ (0, 0)
        | some seconds ↦ if bytes_eq name sl.task_name_ping_req then (1024, 0) else (0, 0)
      ]))

  unfoldable pub task_create_cb_impl : Bytes → Entry → TaskParam → Run (Device N) TaskCode
  task_create_cb_impl name entry param = do
    r ← ask (sl.task_create entry name (task_settings name).0 param (task_settings name).1)
    pure (if is_negative r then task_fail else task_ok)

  unfoldable pub delay_ms_cb_impl : ℕ → Run (Device N) (Unit {0})
  delay_ms_cb_impl msec d = done tt (record d { outside = sl.sleep msec d.outside })
