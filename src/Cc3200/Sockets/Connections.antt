-- ===== src/Cc3200/Sockets/Connections.antt =====
-- The sockets that are open after the callbacks of the CC3200 sample.
use thing_if_thing_sdk.Prelude.{
  true, Bytes, ℕ, ℤ, pos, negsuc, minus_one, nonzero, ◌∷◌, none, ◌==◌, ◌≡◌, ◌⊎◌, inl, inr, refl,
  arith, Option-cases, ◌*◌,
}
use mathlib.Core.Path.{subst}
use thing_if_thing_sdk.Flow.{done, Run, Returns, Returns-if, Returns-weaken, pure}
use thing_if_thing_sdk.Cc3200.Sockets.{
  Device, SimpleLink, SocketCode, socket_ok, socket_fail, sl_connect, with_timeout,
  socket_connect_cb_impl, mqtt_connect_cb_impl, socket_close_cb_impl, is_negative, sl_socket,
}

-- After a connect callback: one socket more, and the context has it; or no socket more, and the context
-- is as it was.
abbrev pub Connects : {N : Type 0} → Device N → SocketCode → Device N → Type 0
Connects d socket_ok d' = (s : ℕ) × (d'.opened ≡ s ∷ d.opened) × (d'.sock ≡ pos s)
Connects d socket_fail d' = (d'.opened ≡ d.opened) × (d'.sock ≡ d.sock)

-- The same, but that a failure may leave a socket open.
abbrev pub LeaksAtMost : {N : Type 0} → Device N → SocketCode → Device N → Type 0
LeaksAtMost d socket_ok d' = (s : ℕ) × (d'.opened ≡ s ∷ d.opened) × (d'.sock ≡ pos s)
LeaksAtMost d socket_fail d' =
    ((d'.opened ≡ d.opened) ⊎ ((s : ℕ) × (d'.opened ≡ s ∷ d.opened))) × (d'.sock ≡ d.sock)

same : (s : ℕ) → (s == s) ≡ true
same s = ground arith

module _ {N : Type 0} (sl : SimpleLink N) where
  sl_connect-Connects :
      (s address port : ℕ) (d : Device N)
      → Returns (Connects d) (sl_connect sl s address port (record d { opened = s ∷ d.opened }))
  sl_connect-Connects s address port d = ground (arith, same s)

  -- After sl_Socket, where the rest of the callback does what P says.
  sl_socket-Returns :
      (P : SocketCode → Device N → Type 0) (go : ℕ → Run (Device N) SocketCode) (d : Device N)
      → P socket_fail d
      → ((s : ℕ) → Returns P (go s (record d { opened = s ∷ d.opened })))
      → (sock : ℤ) → Returns P (sl_socket sl go sock d)
  sl_socket-Returns P go d failed goes (negsuc n) = failed
  sl_socket-Returns P go d failed goes (pos s) = goes s

  socket_connect_cb_impl-Connects :
      (host : Bytes) (port : ℕ) (d : Device N)
      → Returns (Connects d) (socket_connect_cb_impl sl host port d)
  unfolding socket_connect_cb_impl
  socket_connect_cb_impl-Connects host port d =
      let (r, address, n1) = sl.get_host_by_name host d.outside in
      let (sock, n2) = sl.socket n1 in
      Returns-if (Connects d) (is_negative r) (pure socket_fail) _ (record d { outside = n1 })
        (refl, refl)
        (sl_socket-Returns (Connects d) (λ s. sl_connect sl s address port)
          (record d { outside = n2 }) (refl, refl)
          (λ s. sl_connect-Connects s address port (record d { outside = n2 })) sock)

  weaker :
      (d : Device N) (code : SocketCode) (d' : Device N)
      → Connects d code d'
      → LeaksAtMost d code d'
  weaker d socket_ok d' h = h
  weaker d socket_fail d' h = (inl h.0, h.1)

  with_timeout-LeaksAtMost :
      (s address port : ℕ) (d : Device N)
      → Returns
          (LeaksAtMost d)
          (with_timeout sl s (sl_connect sl s address port) (record d { opened = s ∷ d.opened }))
  with_timeout-LeaksAtMost s address port d = elim (Option-cases sl.keep_alive) [
    | inl without_interval ↦ rw without_interval (
        Returns-weaken (Connects d) (LeaksAtMost d) _ (weaker d)
          (sl_connect-Connects s address port d))
    | inr (seconds, interval) ↦
        let (r, n) = sl.set_receive_timeout s (seconds * 2) d.outside in
        rw interval (
          Returns-if (LeaksAtMost d) (nonzero r) (pure socket_fail) (sl_connect sl s address port)
            (record d { opened = s ∷ d.opened; outside = n }) (inr (s, refl), refl)
            (Returns-weaken (Connects d) (LeaksAtMost d) _ (weaker d)
              (sl_connect-Connects s address port (record d { outside = n }))))
  ]

  mqtt_connect_cb_impl-LeaksAtMost :
      (host : Bytes) (port : ℕ) (d : Device N)
      → Returns (LeaksAtMost d) (mqtt_connect_cb_impl sl host port d)
  unfolding mqtt_connect_cb_impl
  mqtt_connect_cb_impl-LeaksAtMost host port d =
      let (r, address, n1) = sl.get_host_by_name host d.outside in
      let (sock, n2) = sl.socket n1 in
      Returns-if (LeaksAtMost d) (is_negative r) (pure socket_fail) _ (record d { outside = n1 })
        (inl refl, refl)
        (sl_socket-Returns (LeaksAtMost d) (λ s. with_timeout sl s (sl_connect sl s address port))
          (record d { outside = n2 }) (inl refl, refl)
          (λ s. with_timeout-LeaksAtMost s address port (record d { outside = n2 })) sock)

  -- Without a keep-alive interval the two callbacks are the same.
  same_callbacks :
      (host : Bytes) (port : ℕ) (d : Device N)
      → sl.keep_alive ≡ none
      → mqtt_connect_cb_impl sl host port d ≡ socket_connect_cb_impl sl host port d
  unfolding mqtt_connect_cb_impl socket_connect_cb_impl
  same_callbacks host port d e = rw e refl

  -- Both connect callbacks return. After a success there is one open socket more and the context has
  -- it. A failure leaves no socket open, but for the push connection with a keep-alive interval, where
  -- it may leave one; the context is as it was.
  pub both_callbacks-Connects :
      (host : Bytes) (port : ℕ) (d : Device N)
      → Returns (Connects d) (socket_connect_cb_impl sl host port d)
        × Returns (LeaksAtMost d) (mqtt_connect_cb_impl sl host port d)
        × (sl.keep_alive ≡ none → Returns (Connects d) (mqtt_connect_cb_impl sl host port d))
  both_callbacks-Connects host port d = (
    socket_connect_cb_impl-Connects host port d,
    mqtt_connect_cb_impl-LeaksAtMost host port d,
    λ e. rw (same_callbacks host port d e) (socket_connect_cb_impl-Connects host port d),
  )

  -- Whatever the transfers did in between, closing a socket that was opened last closes exactly that.
  pub connected-Closed :
      (host : Bytes) (port : ℕ) (d d' : Device N)
      → socket_connect_cb_impl sl host port d ≡ done socket_ok d'
      → (n : N)
      → Returns
          (λ code d''. (code ≡ socket_ok) × (d''.opened ≡ d.opened) × (d''.sock ≡ minus_one))
          (socket_close_cb_impl sl (record d' { outside = n }))
  unfolding socket_close_cb_impl
  connected-Closed host port d d' e n =
      let (s, opened, sock) =
        subst (Returns (Connects d)) e (socket_connect_cb_impl-Connects host port d) in
      (refl, rw (opened, sock) (rw (same s) refl), refl)
