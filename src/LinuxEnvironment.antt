-- ===== src/LinuxEnvironment.antt =====
-- The environment of the Linux sample. Here are the sockets of linux-sample/linux-env/secure_socket_impl.c;
-- Callbacks has the tasks and the callbacks over both. What the operating system and OpenSSL hand out is
-- on lists: the memory of the socket contexts, the open sockets, and the SSL and SSL_CTX objects. printf
-- is left out.
pub mod Ledger
pub mod Connections
pub mod Attempts
pub mod Closing
pub mod Callbacks
pub mod Delays
use thing_if_thing_sdk.Prelude.{
  Bool, true, false, Bytes, length, ℕ, ◌%◌, ◌^◌, ◌*◌, ℤ, pos, negsuc, minus_one, int_eq, List, [],
  ◌∷◌, Option, none, some, ◌==◌, ◌||◌, zero, suc, not, if◌then◌else◌,
}
use mathlib.Core.Option
use thing_if_thing_sdk.Kii.{Entry, TaskParam}
use thing_if_thing_sdk.Flow.{Outcome, done, fault, aborted, unfinished, Run, pure, ◌>>=◌, ◌>>◌}

-- kii_socket_code_t, without KII_SOCKETC_AGAIN, which this code does not return.
pub data SocketCode : Type 0 where
  socket_ok socket_fail : SocketCode

-- ssl_context_t; 0 is NULL.
pub record SslContext : Type 0 where
  pub ssl : ℕ
  pub ssl_ctx : ℕ

-- kii_socket_context_t
pub record SocketContext : Type 0 where
  pub socket : ℕ
  pub app_context : ℕ

-- What is handed out: the socket contexts by their addresses, and the handles of the rest.
pub record Resources : Type 0 where
  pub heap : List (ℕ × SslContext)
  pub sockets : List ℕ
  pub ssls : List ℕ
  pub ssl_ctxs : List ℕ

-- What the callbacks work on; `outside` is the operating system and the network.
pub record Machine (N : Type 0) : Type 0 where
  pub resources : Resources
  pub socket_context : SocketContext
  pub outside : N

-- The C library and OpenSSL, and what the Kii SDK calls an error of the system.
pub record System (N : Type 0) : Type 0 where
  -- 0 is NULL
  pub malloc : N → ℕ × N
  -- NULL, or the address of the host
  pub gethostbyname : Bytes → N → Option Bytes × N
  pub socket : N → ℤ × N
  -- the socket, the address and the port
  pub connect : ℕ → Bytes → ℕ → N → ℤ × N
  pub ssl_ctx_new : N → ℕ × N
  pub ssl_new : ℕ → N → ℕ × N
  pub ssl_set_fd : ℕ → ℕ → N → ℤ × N
  pub ssl_connect : ℕ → N → ℤ × N
  pub ssl_get_error : ℕ → ℤ → N → ℤ
  pub ssl_error_syscall : ℤ
  pub ssl_write : ℕ → Bytes → N → ℤ × N
  -- what was read is in the buffer
  pub ssl_read : ℕ → ℕ → N → ℤ × Bytes × N
  pub ssl_shutdown : ℕ → N → ℤ × N
  pub close : ℕ → N → N
  pub pthread_create : Entry → TaskParam → N → ℤ × N
  pub usleep : ℕ → N → N

-- A handle less, or `none` where it is not on the list: it was never handed out, or is released.
abbrev pub remove : ℕ → List ℕ → Option (List ℕ)
remove p [] = none
remove p (q ∷ qs) =
    let rest = remove p qs in if q == p then some qs else Option.map (λ r. q ∷ r) rest

abbrev pub remove_context : ℕ → List (ℕ × SslContext) → Option (List (ℕ × SslContext))
remove_context p [] = none
remove_context p (e ∷ es) =
    let rest = remove_context p es in if e.0 == p then some es else Option.map (λ r. e ∷ r) rest

abbrev pub find : ℕ → List (ℕ × SslContext) → Option SslContext
find p [] = none
find p (e ∷ es) = let rest = find p es in if e.0 == p then some e.1 else rest

abbrev pub replace : ℕ → SslContext → List (ℕ × SslContext) → List (ℕ × SslContext)
replace p v [] = []
replace p v (e ∷ es) = let rest = replace p v es in if e.0 == p then (p, v) ∷ es else e ∷ rest

-- The resources once one of them is released.
abbrev pub less_context : ℕ → Resources → Option Resources
less_context p r = Option.map (λ h. record r { heap = h }) (remove_context p r.heap)

abbrev pub less_socket : ℕ → Resources → Option Resources
less_socket p r = Option.map (λ l. record r { sockets = l }) (remove p r.sockets)

abbrev pub less_ssl : ℕ → Resources → Option Resources
less_ssl p r = Option.map (λ l. record r { ssls = l }) (remove p r.ssls)

abbrev pub less_ssl_ctx : ℕ → Resources → Option Resources
less_ssl_ctx p r = Option.map (λ l. record r { ssl_ctxs = l }) (remove p r.ssl_ctxs)

module _ {N : Type 0} where
  abbrev pub update : (Resources → Resources) → Run (Machine N) (Unit {0})
  update f m = done tt (record m { resources = f m.resources })

  abbrev pub update_if : (Resources → Option Resources) → Run (Machine N) (Unit {0})
  update_if f m = elim (f m.resources) [
    | none ↦ fault
    | some r ↦ done tt (record m { resources = r })
  ]

  -- free, of a pointer that is not NULL
  abbrev pub free : ℕ → Run (Machine N) (Unit {0})
  free p = update_if (less_context p)

  -- `ctx->...` of a pointer
  abbrev pub context_at : ℕ → Run (Machine N) SslContext
  context_at p m = elim (find p m.resources.heap) [ none ↦ fault | some v ↦ done v m ]

  abbrev pub ssl_free : ℕ → Run (Machine N) (Unit {0})
  ssl_free s = update_if (less_ssl s)

  abbrev pub ssl_ctx_free : ℕ → Run (Machine N) (Unit {0})
  ssl_ctx_free s = update_if (less_ssl_ctx s)

  -- The context that `socket_context->app_context` points to.
  abbrev pub app_context : Run (Machine N) SslContext
  app_context m = context_at m.socket_context.app_context m

  -- `free(ctx); return KII_SOCKETC_FAIL;`
  abbrev pub give_up : ℕ → Run (Machine N) SocketCode
  give_up ctx = do free ctx; pure socket_fail

  -- A call of the operating system.
  abbrev pub ask : {A : Type 0} → (N → A × N) → Run (Machine N) A
  ask f m = let (a, n) = f m.outside in done a (record m { outside = n })

module _ {N : Type 0} (system : System N) where
  -- malloc and the memset behind it, which writes to NULL where there is no memory.
  abbrev pub new_context : Run (Machine N) ℕ
  new_context = do
    p ← ask system.malloc
    if p == 0 then (λ m. fault) else do
      update (λ r. record r { heap = (p, record { ssl = 0; ssl_ctx = 0 }) ∷ r.heap })
      pure p

  abbrev pub close_socket : ℕ → Run (Machine N) (Unit {0})
  close_socket s = do
    update_if (less_socket s)
    λ m. done tt (record m { outside = system.close s m.outside })

  -- Lines 92 to 105.
  unfoldable pub handshake : ℕ → ℕ → ℕ → ℕ → Run (Machine N) SocketCode
  handshake ctx sock ssl_ctx ssl = do
    ret ← ask (system.ssl_connect ssl)
    if not (int_eq ret (pos 1)) then give_up ctx else do
      (λ m. done tt (record m { socket_context = record { socket = sock; app_context = ctx } }))
      update (λ r. record r { heap = replace ctx (record { ssl = ssl; ssl_ctx = ssl_ctx }) r.heap })
      pure socket_ok

  -- Lines 70 to 90.
  unfoldable pub secure : ℕ → ℕ → Run (Machine N) SocketCode
  unfolding handshake
  secure ctx sock = do
    ssl_ctx ← ask system.ssl_ctx_new
    if ssl_ctx == 0 then give_up ctx else do
      update (λ r. record r { ssl_ctxs = ssl_ctx ∷ r.ssl_ctxs })
      ssl ← ask (system.ssl_new ssl_ctx)
      if ssl == 0 then give_up ctx else do
        update (λ r. record r { ssls = ssl ∷ r.ssls })
        ret ← ask (system.ssl_set_fd ssl sock)
        if int_eq ret (pos 0) then give_up ctx else handshake ctx sock ssl_ctx ssl

  -- Lines 58 to 68, for the address of the host. A negative socket is an error.
  unfoldable pub open_socket : ℕ → Bytes → ℕ → ℤ → Run (Machine N) SocketCode
  unfolding secure
  open_socket ctx address port (negsuc n) = give_up ctx
  open_socket ctx address port (pos sock) = do
    update (λ r. record r { sockets = sock ∷ r.sockets })
    ret ← ask (system.connect sock address (port % 2 ^ 16))
    if int_eq ret minus_one then give_up ctx else secure ctx sock

  -- Lines 44 to 57.
  unfoldable pub open_host : ℕ → ℕ → Option Bytes → Run (Machine N) SocketCode
  unfolding open_socket
  open_host ctx port none = give_up ctx
  open_host ctx port (some address) = do sock ← ask system.socket; open_socket ctx address port sock

  unfoldable pub s_connect_cb : Bytes → ℕ → Run (Machine N) SocketCode
  unfolding open_host
  s_connect_cb host port = do
    ctx ← new_context
    servhost ← ask (system.gethostbyname host)
    open_host ctx port servhost

  abbrev pub positive : ℤ → Bool
  positive (pos zero) = false
  positive (pos (suc n)) = true
  positive (negsuc n) = false

  -- A write of fewer bytes than asked for is a success.
  unfoldable pub s_send_cb : Bytes → Run (Machine N) SocketCode
  s_send_cb buffer = do
    ctx ← app_context
    ret ← ask (system.ssl_write ctx.ssl buffer)
    pure (if positive ret then socket_ok else socket_fail)

  -- The code, what is in the buffer and *out_actual_length.
  unfoldable pub s_recv_cb : ℕ → Run (Machine N) (SocketCode × Bytes × ℤ)
  s_recv_cb length_to_read = do
    ctx ← app_context
    (ret, buffer) ←
        ask (λ n. let (r, b, n') = system.ssl_read ctx.ssl length_to_read n in ((r, b), n'))
    pure (if positive ret then (socket_ok, buffer, ret) else (socket_fail, buffer, pos 0))

  -- Whether the connection was shut down, or the system alone reported an error.
  abbrev pub shut : ℕ → ℤ → N → Bool
  shut ssl ret n =
      int_eq ret (pos 1) || int_eq (system.ssl_get_error ssl ret n) system.ssl_error_syscall

  -- Lines 159 to 161.
  abbrev pub release : ℕ → SslContext → Run (Machine N) (Unit {0})
  release sock ctx = do close_socket sock; ssl_free ctx.ssl; ssl_ctx_free ctx.ssl_ctx

  -- Lines 162 to 168.
  abbrev pub finish_close : Bool → ℕ → Run (Machine N) SocketCode
  finish_close false ctx = pure socket_fail
  finish_close true ctx = do
    free ctx
    (λ m. done tt (record m { socket_context = record m.socket_context { app_context = 0 } }))
    pure socket_ok

  unfoldable pub s_close_cb : Run (Machine N) SocketCode
  s_close_cb m =
      (do
        ctx ← app_context
        ret ← ask (system.ssl_shutdown ctx.ssl)
        closed ← (λ m'. done (shut ctx.ssl ret m'.outside) m')
        release m.socket_context.socket ctx
        finish_close closed m.socket_context.app_context)
        m
