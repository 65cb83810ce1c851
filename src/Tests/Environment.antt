-- ===== src/Tests/Environment.antt =====
-- The sockets and delays of the Linux environment on a small system that hands out numbered handles.
use thing_if_thing_sdk.Prelude.{
  codes, ℕ, ◌+◌, ◌*◌, ◌≤◌, ◌<◌, ℤ, pos, minus_one, [], ◌∷◌, some, ◌≡◌, refl, arith,
}
use thing_if_thing_sdk.Flow.{done, Returns, ◌>>◌}
use thing_if_thing_sdk.Report.{delay_of}
use thing_if_thing_sdk.LinuxEnvironment.{
  System, Machine, socket_fail, s_connect_cb, s_close_cb, open_host, open_socket, secure, handshake,
}
use thing_if_thing_sdk.LinuxEnvironment.Callbacks.{delay_ms_cb}
use thing_if_thing_sdk.LinuxEnvironment.Ledger.{machine}
use thing_if_thing_sdk.LinuxEnvironment.Connections.{open_on, a_session}
use thing_if_thing_sdk.LinuxEnvironment.Attempts.{Follows, refused, s_connect_cb-Follows}
use thing_if_thing_sdk.LinuxEnvironment.Closing.{
  Restored, send, receive, transfers, connected-Restored,
}
use thing_if_thing_sdk.LinuxEnvironment.Delays.{delay_ms_cb-bounds}

-- A system that counts the handles that it gave, and microseconds; SSL_connect and SSL_shutdown answer
-- as given.
abbrev system : ℤ → ℤ → System ℕ
system handshake_result shutdown_result = record {
  malloc = λ n. (n + 1, n + 1);
  gethostbyname = λ host n. (some (codes "1234"), n);
  socket = λ n. (pos (n + 1), n + 1);
  connect = λ sock address port n. (pos 0, n);
  ssl_ctx_new = λ n. (n + 1, n + 1);
  ssl_new = λ ctx n. (n + 1, n + 1);
  ssl_set_fd = λ ssl sock n. (pos 1, n);
  ssl_connect = λ ssl n. (handshake_result, n);
  ssl_get_error = λ ssl ret n. pos 1;
  ssl_error_syscall = pos 5;
  ssl_write = λ ssl buffer n. (pos 1, n);
  ssl_read = λ ssl size n. (pos 0, [], n);
  ssl_shutdown = λ ssl n. (shutdown_result, n);
  close = λ sock n. n;
  pthread_create = λ entry param n. (pos 0, n);
  usleep = λ us n. us;
}

abbrev nothing_open : Machine ℕ
nothing_open =
    machine (record { heap = []; sockets = []; ssls = []; ssl_ctxs = [] })
      (record { socket = 0; app_context = 0 }) 0

-- A handshake that fails.
s_connect_cb-Follows_example :
    Returns
      (Follows
        (system minus_one (pos 1))
        1
        nothing_open.resources
        nothing_open.socket_context
        (refused (a_session 2 3 4)))
      (s_connect_cb (system minus_one (pos 1)) (codes "api.kii.com") 443 nothing_open)
s_connect_cb-Follows_example =
    s_connect_cb-Follows (system minus_one (pos 1)) (codes "api.kii.com") 443 nothing_open
      (omega arith)

-- It leaves its socket, SSL_CTX and SSL open.
handshake_leaks :
    Returns
      (λ code m.
        (code ≡ socket_fail)
        × (m.resources ≡ record { heap = []; sockets = 2 ∷ []; ssls = 4 ∷ []; ssl_ctxs = 3 ∷ [] }))
      (s_connect_cb (system minus_one (pos 1)) (codes "api.kii.com") 443 nothing_open)
unfolding s_connect_cb open_host open_socket secure handshake
handshake_leaks = (refl, refl)

-- An open connection.
abbrev connected : Machine ℕ
connected =
    machine (open_on 1 2 3 4 nothing_open.resources) (record { socket = 2; app_context = 1 }) 4

connected-Restored_example : Returns (Restored (system (pos 1) (pos 1)) nothing_open.resources) (
    (transfers (system (pos 1) (pos 1)) (send (codes "GET") ∷ receive 10 ∷ [])
        >> s_close_cb (system (pos 1) (pos 1)))
      connected)
unfolding s_connect_cb open_host open_socket secure handshake
connected-Restored_example =
    connected-Restored (system (pos 1) (pos 1)) (codes "api.kii.com") 443
      (send (codes "GET") ∷ receive 10 ∷ []) nothing_open connected (omega arith) refl

delay_ms_cb-bounds_example :
    (us : ℕ) × (delay_ms_cb (system (pos 1) (pos 1)) 4295000 nothing_open
      ≡ done tt (record nothing_open { outside = us }))
    × (4295 ≤ 4294 → us ≡ 4295 * 1000000)
    × (4294 < 4295 → us < 4295 * 1000000)
unfolding delay_of
delay_ms_cb-bounds_example =
    delay_ms_cb-bounds (system (pos 1) (pos 1)) 4295 4295000 nothing_open refl

-- A period of 4295 seconds is a sleep of 33 milliseconds.
wrapped :
    Returns (λ _ m. m.outside ≡ 32704) (delay_ms_cb (system (pos 1) (pos 1)) 4295000 nothing_open)
unfolding delay_ms_cb
wrapped = refl
