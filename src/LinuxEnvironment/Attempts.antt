-- ===== src/LinuxEnvironment/Attempts.antt =====
-- s_connect_cb and the call that decides its end.
use thing_if_thing_sdk.Prelude.{
  Bool, true, false, Bytes, ℕ, ◌<◌, ◌%◌, ◌^◌, ℤ, pos, negsuc, minus_one, int_eq, Option, none, some,
  ◌==◌, ◌≡◌, refl, not, if◌then◌else◌,
}
use thing_if_thing_sdk.Flow.{Run, Returns}
use thing_if_thing_sdk.LinuxEnvironment.{
  SocketContext, SocketCode, socket_ok, socket_fail, Resources, Machine, System, give_up, handshake,
  secure, open_socket, open_host, s_connect_cb,
}
use thing_if_thing_sdk.LinuxEnvironment.Ledger.{same, give_up_lem}
use thing_if_thing_sdk.LinuxEnvironment.Connections.{
  Lost, nothing, a_socket, a_context, a_session, lose, open_on, nonnull, making,
}

-- How an attempt to connect ends: refused, with what was open by then, or with a socket, an SSL_CTX and
-- an SSL.
pub data Verdict : Type 0 where
  refused : Lost → Verdict
  opened : ℕ → ℕ → ℕ → Verdict

module _ {N : Type 0} (system : System N) where
  -- The verdict of the system's answers from SSL_connect on: success is the answer 1.
  abbrev pub handshaken : ℕ → ℕ → ℕ → N → Verdict
  handshaken sock ssl_ctx ssl n =
      if int_eq (system.ssl_connect ssl n).0 (pos 1)
      then opened sock ssl_ctx ssl
      else refused (a_session sock ssl_ctx ssl)

  -- From SSL_CTX_new on: neither it nor SSL_new may answer NULL, nor SSL_set_fd 0.
  abbrev pub secured : ℕ → N → Verdict
  secured sock n =
      let (ssl_ctx, n1) = system.ssl_ctx_new n in
      let (ssl, n2) = system.ssl_new ssl_ctx n1 in
      let (ret, n3) = system.ssl_set_fd ssl sock n2 in
      if ssl_ctx == 0
      then refused (a_socket sock)
      else (if ssl == 0
          then refused (a_context sock ssl_ctx)
          else (if int_eq ret (pos 0)
              then refused (a_session sock ssl_ctx ssl)
              else handshaken sock ssl_ctx ssl n3))

  -- With an answer of socket: it is negative, or connect answers -1, or the connection is made.
  abbrev pub connected_to : Bytes → ℕ → ℤ × N → Verdict
  connected_to address port (negsuc k, n) = refused nothing
  connected_to address port (pos sock, n) =
      let (ret, n1) = system.connect sock address (port % 2 ^ 16) n in
      if int_eq ret minus_one then refused (a_socket sock) else secured sock n1

  -- With an answer of gethostbyname.
  abbrev pub found_host : ℕ → Option Bytes × N → Verdict
  found_host port (none, n) = refused nothing
  found_host port (some address, n) = connected_to address port (system.socket n)

  abbrev pub attempt : Bytes → ℕ → N → Verdict
  attempt host port n = found_host port (system.gethostbyname host (system.malloc n).1)

  -- What s_connect_cb returns and leaves for a verdict. A refused attempt has released its own memory
  -- and nothing else, and the socket context is as it was.
  abbrev pub Follows : ℕ → Resources → SocketContext → Verdict → SocketCode → Machine N → Type 0
  Follows p r s (refused lost) socket_fail m = (m.resources ≡ lose lost r) × (m.socket_context ≡ s)
  Follows p r s (opened sock ssl_ctx ssl) socket_ok m =
      (m.resources ≡ open_on p sock ssl_ctx ssl r)
      × (m.socket_context ≡ record { socket = sock; app_context = p })
  Follows p r s (refused lost) socket_ok m = ⊥
  Follows p r s (opened sock ssl_ctx ssl) socket_fail m = ⊥

  module _ (p : ℕ) (r : Resources) (s : SocketContext) where
    -- Both branches of a test, each with its verdict.
    either :
        (b : Bool) (v w : Verdict) (m n : Run (Machine N) SocketCode) (t : Machine N)
        → Returns (Follows p r s v) (m t)
        → Returns (Follows p r s w) (n t)
        → Returns (Follows p r s (if b then v else w)) ((if b then m else n) t)
    either true v w m n t h k = h
    either false v w m n t h k = k

    opposite :
        (b : Bool) (v w : Verdict) (m n : Run (Machine N) SocketCode) (t : Machine N)
        → Returns (Follows p r s v) (m t)
        → Returns (Follows p r s w) (n t)
        → Returns (Follows p r s (if b then w else v)) ((if not b then m else n) t)
    opposite true v w m n t h k = k
    opposite false v w m n t h k = h

    give_up-Follows :
        (lost : Lost) (n : N)
        → Returns (Follows p r s (refused lost)) (give_up p (making system p (lose lost r) s n))
    give_up-Follows lost n =
        rw (give_up_lem p (record { ssl = 0; ssl_ctx = 0 }) (lose lost r) s n) (refl, refl)

    handshake-Follows :
        (sock ssl_ctx ssl : ℕ) (n : N)
        → Returns (Follows p r s (handshaken sock ssl_ctx ssl n)) (
            handshake system p sock ssl_ctx ssl
              (making system p (lose (a_session sock ssl_ctx ssl) r) s n))
    unfolding handshake
    handshake-Follows sock ssl_ctx ssl n =
        let (ret, n') = system.ssl_connect ssl n in
        opposite (int_eq ret (pos 1)) (refused (a_session sock ssl_ctx ssl))
          (opened sock ssl_ctx ssl) (give_up p) _
          (making system p (lose (a_session sock ssl_ctx ssl) r) s n')
          (give_up-Follows (a_session sock ssl_ctx ssl) n') (rw (same p) refl, refl)

    secure-Follows :
        (sock : ℕ) (n : N)
        → Returns
            (Follows p r s (secured sock n))
            (secure system p sock (making system p (lose (a_socket sock) r) s n))
    unfolding secure
    secure-Follows sock n =
        let (ssl_ctx, n1) = system.ssl_ctx_new n in
        let (ssl, n2) = system.ssl_new ssl_ctx n1 in
        let (ret, n3) = system.ssl_set_fd ssl sock n2 in
        either (ssl_ctx == 0) (refused (a_socket sock)) _ (give_up p) _
          (making system p (lose (a_socket sock) r) s n1) (give_up-Follows (a_socket sock) n1)
          (either (ssl == 0) (refused (a_context sock ssl_ctx)) _ (give_up p) _
            (making system p (lose (a_context sock ssl_ctx) r) s n2)
            (give_up-Follows (a_context sock ssl_ctx) n2)
            (either (int_eq ret (pos 0)) (refused (a_session sock ssl_ctx ssl)) _ (give_up p)
              (handshake system p sock ssl_ctx ssl)
              (making system p (lose (a_session sock ssl_ctx ssl) r) s n3)
              (give_up-Follows (a_session sock ssl_ctx ssl) n3)
              (handshake-Follows sock ssl_ctx ssl n3)))

    open_socket-Follows :
        (address : Bytes) (port : ℕ) (sock : ℤ) (n : N)
        → Returns
            (Follows p r s (connected_to address port (sock, n)))
            (open_socket system p address port sock (making system p r s n))
    unfolding open_socket
    open_socket-Follows address port (negsuc k) n = give_up-Follows nothing n
    open_socket-Follows address port (pos sock) n =
        let (ret, n1) = system.connect sock address (port % 2 ^ 16) n in
        either (int_eq ret minus_one) (refused (a_socket sock)) _ (give_up p) (secure system p sock)
          (making system p (lose (a_socket sock) r) s n1) (give_up-Follows (a_socket sock) n1)
          (secure-Follows sock n1)

    open_host-Follows :
        (port : ℕ) (servhost : Option Bytes) (n : N)
        → Returns
            (Follows p r s (found_host port (servhost, n)))
            (open_host system p port servhost (making system p r s n))
    unfolding open_host
    open_host-Follows port none n = give_up-Follows nothing n
    open_host-Follows port (some address) n =
        let (sock, n1) = system.socket n in open_socket-Follows address port sock n1

  -- Where there is memory for its context, s_connect_cb returns, and the first call of the system that
  -- fails decides: gethostbyname, socket, connect, SSL_CTX_new, SSL_new, SSL_set_fd or SSL_connect.
  -- It then returns an error, the socket context is as it was, and what was open by then, the socket,
  -- with it the SSL_CTX, with both the SSL, is left open. Where none fails, it succeeds: the three
  -- are open and the socket context leads to them.
  pub s_connect_cb-Follows :
      (host : Bytes) (port : ℕ) (m : Machine N)
      → 0 < (system.malloc m.outside).0
      → Returns
          (Follows
            (system.malloc m.outside).0
            m.resources
            m.socket_context
            (attempt host port m.outside))
          (s_connect_cb system host port m)
  unfolding s_connect_cb
  s_connect_cb-Follows host port m given =
      let (p, n1) = system.malloc m.outside in
      let (servhost, n2) = system.gethostbyname host n1 in
      rw (nonnull p given, s_connect_cb)
        (open_host-Follows p m.resources m.socket_context port servhost n2)
