-- ===== src/LinuxEnvironment/Closing.antt =====
-- Using and closing an open connection.
use thing_if_thing_sdk.Prelude.{
  Bool, true, false, Bytes, ℕ, ◌<◌, List, [], ◌∷◌, ◌≡◌, refl, sym, ap, ◌∙◌,
}
use mathlib.Core.Path.{subst}
use thing_if_thing_sdk.Flow.{
  done, Run, pure, Returns, Returns-continue, Returns-weaken, bind_done, ◌>>◌,
}
use thing_if_thing_sdk.LinuxEnvironment.{
  SslContext, SocketContext, SocketCode, socket_ok, socket_fail, Resources, Machine, System,
  s_connect_cb, s_send_cb, s_recv_cb, s_close_cb, shut, app_context, close_socket, ssl_free,
  ssl_ctx_free, update_if, release, finish_close, less_socket, less_ssl, less_ssl_ctx,
}
use thing_if_thing_sdk.LinuxEnvironment.Ledger.{
  remove-head, find-head, machine, with_context, context_at_lem, free_lem, update_if_lem,
}
use thing_if_thing_sdk.LinuxEnvironment.Connections.{open_on, Connects, s_connect_cb-Connects}

module _ {N : Type 0} (system : System N) (r : Resources) (p sock ssl_ctx ssl : ℕ) where
  abbrev pointing : SocketContext
  pointing = record { socket = sock; app_context = p }

  abbrev context : SslContext
  context = record { ssl = ssl; ssl_ctx = ssl_ctx }

  -- The machine with an open connection.
  abbrev connected : N → Machine N
  connected n = machine (open_on p sock ssl_ctx ssl r) pointing n

  found : (n : N) → app_context (connected n) ≡ done context (connected n)
  found n = context_at_lem p (connected n) context (find-head p context r.heap)

  -- What close leaves: all resources are back, or all but the memory of the context, to which the
  -- socket context still leads.
  abbrev pub Closes : SocketCode → Machine N → Type 0
  Closes socket_ok m =
      (m.resources ≡ r) × (m.socket_context ≡ record { socket = sock; app_context = 0 })
  Closes socket_fail m = (m.resources ≡ with_context p context r) × (m.socket_context ≡ pointing)

  without_socket : Resources
  without_socket = record (open_on p sock ssl_ctx ssl r) { sockets = r.sockets }

  without_ssl : Resources
  unfolding without_socket
  without_ssl = record without_socket { ssls = r.ssls }

  closed_socket :
      (n : N)
      → close_socket system sock (connected n)
        ≡ done tt (machine without_socket pointing (system.close sock n))
  unfolding without_socket
  closed_socket n = bind_done (update_if (less_socket sock)) _ {s = connected n} (
      update_if_lem (less_socket sock) (connected n) without_socket
        (rw (remove-head sock r.sockets) refl))

  release_lem :
      (n : N)
      → release system sock context (connected n)
        ≡ done tt (machine (with_context p context r) pointing (system.close sock n))
  unfolding without_socket without_ssl
  release_lem n =
      let n' = system.close sock n in
      bind_done (close_socket system sock) (λ _. ssl_free ssl >> ssl_ctx_free ssl_ctx)
        {s = connected n} (closed_socket n)
      ∙ bind_done (ssl_free ssl) (λ _. ssl_ctx_free ssl_ctx)
          {s = machine without_socket pointing n'}
          (update_if_lem (less_ssl ssl) (machine without_socket pointing n') without_ssl
            (rw (remove-head ssl r.ssls) refl))
      ∙ update_if_lem (less_ssl_ctx ssl_ctx) (machine without_ssl pointing n')
          (with_context p context r) (rw (remove-head ssl_ctx r.ssl_ctxs) refl)

  finish_close-Closes :
      (closed : Bool) (n : N)
      → Returns Closes
          (finish_close system closed p (machine (with_context p context r) pointing n))
  finish_close-Closes false n = (refl, refl)
  finish_close-Closes true n = rw (free_lem p context r pointing n) (refl, refl)

  abbrev pub StillConnected : {A : Type 0} → A → Machine N → Type 0
  StillConnected a m = (m.resources ≡ open_on p sock ssl_ctx ssl r) × (m.socket_context ≡ pointing)

  pub s_send_cb-Connected :
      (buffer : Bytes) (n : N) → Returns StillConnected (s_send_cb system buffer (connected n))
  unfolding s_send_cb
  s_send_cb-Connected buffer n =
      subst (Returns StillConnected) (sym (bind_done app_context _ {s = connected n} (found n)))
        (refl, refl)

  pub s_recv_cb-Connected :
      (size : ℕ) (n : N) → Returns StillConnected (s_recv_cb system size (connected n))
  unfolding s_recv_cb
  s_recv_cb-Connected size n =
      subst (Returns StillConnected) (sym (bind_done app_context _ {s = connected n} (found n)))
        (refl, refl)

  -- Where the socket context leads to an open connection, s_close_cb returns; if it succeeds, all
  -- resources of the connection are released and only those.
  pub close-Closes : (n : N) → Returns Closes (s_close_cb system (connected n))
  unfolding s_close_cb
  close-Closes n =
      let (ret, n1) = system.ssl_shutdown ssl n in
      subst (Returns Closes)
        (sym (
          bind_done app_context _ {s = connected n} (found n)
          ∙ bind_done (release system sock context) _ {s = connected n1} (release_lem n1)))
        (finish_close-Closes (shut system ssl ret n1) (system.close sock n1))

-- What the SDK does with an open connection.
pub data Transfer : Type 0 where
  send : Bytes → Transfer
  receive : ℕ → Transfer

module _ {N : Type 0} (system : System N) where
  abbrev pub transfer : Transfer → Run (Machine N) (Unit {0})
  transfer (send buffer) = do s_send_cb system buffer; pure tt
  transfer (receive size) = do s_recv_cb system size; pure tt

  abbrev pub transfers : List Transfer → Run (Machine N) (Unit {0})
  transfers [] = pure tt
  transfers (t ∷ ts) = transfer t >> transfers ts

  module _ (r : Resources) (p sock ssl_ctx ssl : ℕ) where
    abbrev Still : {A : Type 0} → A → Machine N → Type 0
    Still = StillConnected system r p sock ssl_ctx ssl

    is_connected :
        (m : Machine N) → Still tt m → m ≡ connected system r p sock ssl_ctx ssl m.outside
    is_connected m h =
        ap (λ r'. machine r' m.socket_context m.outside) h.0
        ∙ ap (λ s. machine (open_on p sock ssl_ctx ssl r) s m.outside) h.1

    transfer-Connected : (t : Transfer) (m : Machine N) → Still tt m → Returns Still (transfer t m)
    transfer-Connected (send buffer) m h =
        subst (λ m'. Returns Still (transfer (send buffer) m')) (sym (is_connected m h))
          (Returns-continue Still Still (λ _. pure tt) _
            (s_send_cb-Connected system r p sock ssl_ctx ssl buffer m.outside) (λ _ _ k. k))
    transfer-Connected (receive size) m h =
        subst (λ m'. Returns Still (transfer (receive size) m')) (sym (is_connected m h))
          (Returns-continue Still Still (λ _. pure tt) _
            (s_recv_cb-Connected system r p sock ssl_ctx ssl size m.outside) (λ _ _ k. k))

    transfers-Connected :
        (ts : List Transfer) (m : Machine N) → Still tt m → Returns Still (transfers ts m)
    transfers-Connected [] m h = h
    transfers-Connected (t ∷ ts) m h =
        Returns-continue Still Still (λ _. transfers ts) (transfer t m) (transfer-Connected t m h)
          (λ _ m' k. transfers-Connected ts m' k)

  -- After a connection is closed: its resources are released, or all but the memory of its context, to
  -- which the socket context still leads.
  abbrev pub Restored : Resources → SocketCode → Machine N → Type 0
  Restored r socket_ok m = (m.resources ≡ r) × (m.socket_context.app_context ≡ 0)
  Restored r socket_fail m =
      (p : ℕ) × (v : SslContext) × (m.resources ≡ with_context p v r)
      × (m.socket_context.app_context ≡ p)

  closed-Restored :
      (r : Resources) (p sock ssl_ctx ssl : ℕ) (m : Machine N)
      → StillConnected system r p sock ssl_ctx ssl tt m
      → Returns (Restored r) (s_close_cb system m)
  closed-Restored r p sock ssl_ctx ssl m h =
      subst (λ m'. Returns (Restored r) (s_close_cb system m'))
        (sym (is_connected r p sock ssl_ctx ssl m h))
        (Returns-weaken (Closes system r p sock ssl_ctx ssl) (Restored r) _
          (restored r p sock ssl_ctx ssl) (close-Closes system r p sock ssl_ctx ssl m.outside))
    where
      restored :
          (r : Resources) (p sock ssl_ctx ssl : ℕ) (code : SocketCode) (m : Machine N)
          → Closes system r p sock ssl_ctx ssl code m
          → Restored r code m
      restored r p sock ssl_ctx ssl socket_ok m h = (h.0, ap (λ s. s.app_context) h.1)
      restored r p sock ssl_ctx ssl socket_fail m h =
          (p, record { ssl = ssl; ssl_ctx = ssl_ctx }, h.0, ap (λ s. s.app_context) h.1)

  -- A connection that was opened, used for any transfers and closed with success has given back every
  -- resource that it took. If closing it fails, it keeps the memory of its context, and the socket
  -- context still leads there.
  pub connected-Restored :
      (host : Bytes) (port : ℕ) (ts : List Transfer) (m m' : Machine N)
      → 0 < (system.malloc m.outside).0
      → s_connect_cb system host port m ≡ done socket_ok m'
      → Returns (Restored m.resources) ((transfers ts >> s_close_cb system) m')
  connected-Restored host port ts m m' given opened =
      let (p, sock, ssl_ctx, ssl, e, e') =
        subst (Returns (Connects system m.resources m.socket_context)) opened
          (s_connect_cb-Connects system host port m given) in
      Returns-continue (StillConnected system m.resources p sock ssl_ctx ssl) (Restored m.resources)
        (λ _. s_close_cb system) (transfers ts m')
        (transfers-Connected m.resources p sock ssl_ctx ssl ts m' (e, e'))
        (λ _ m'' k. closed-Restored m.resources p sock ssl_ctx ssl m'' k)
