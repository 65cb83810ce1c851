-- ===== src/LinuxEnvironment/Connections.antt =====
-- Opening, using and closing a connection.
use thing_if_thing_sdk.Prelude.{
  false, Bytes, ℕ, ◌<◌, ◌%◌, ◌^◌, ℤ, pos, negsuc, minus_one, int_eq, List, ◌∷◌, Option, none, some,
  ◌==◌, ◌≡◌, refl, arith, not,
}
use thing_if_thing_sdk.Flow.{Returns, Returns-if}
use thing_if_thing_sdk.LinuxEnvironment.{
  SocketContext, SocketCode, socket_ok, socket_fail, Resources, Machine, System, give_up, handshake,
  secure, open_socket, open_host, s_connect_cb,
}
use thing_if_thing_sdk.LinuxEnvironment.Ledger.{same, give_up_lem, machine, with_context}

-- A list with one handle more, or none.
abbrev pub plus : Option ℕ → List ℕ → List ℕ
plus none l = l
plus (some p) l = p ∷ l

-- What a failed attempt to connect has not released: a socket, and with it perhaps an SSL_CTX, and with
-- that perhaps an SSL.
pub data Lost : Type 0 where
  nothing : Lost
  a_socket : ℕ → Lost
  a_context : ℕ → ℕ → Lost
  a_session : ℕ → ℕ → ℕ → Lost

abbrev pub lose : Lost → Resources → Resources
lose nothing r = r
lose (a_socket s) r = record r { sockets = s ∷ r.sockets }
lose (a_context s c) r = record r { sockets = s ∷ r.sockets; ssl_ctxs = c ∷ r.ssl_ctxs }
lose (a_session s c l) r = record r {
  sockets = s ∷ r.sockets;
  ssl_ctxs = c ∷ r.ssl_ctxs;
  ssls = l ∷ r.ssls;
}

-- The resources of an open connection, on top of others.
abbrev pub open_on : ℕ → ℕ → ℕ → ℕ → Resources → Resources
open_on p sock ssl_ctx ssl r = record {
  heap = (p, record { ssl = ssl; ssl_ctx = ssl_ctx }) ∷ r.heap;
  sockets = sock ∷ r.sockets;
  ssls = ssl ∷ r.ssls;
  ssl_ctxs = ssl_ctx ∷ r.ssl_ctxs;
}

pub nonnull : (p : ℕ) → 0 < p → (p == 0) ≡ false
nonnull p h = ground arith

module _ {N : Type 0} (system : System N) where
  -- What s_connect_cb has done: the connection is open and the context of the socket leads to it, or the
  -- memory is released and the context is as it was.
  abbrev pub Connects : Resources → SocketContext → SocketCode → Machine N → Type 0
  Connects r s socket_ok m =
      (p : ℕ) × (sock : ℕ) × (ssl_ctx : ℕ) × (ssl : ℕ) × (m.resources
        ≡ open_on p sock ssl_ctx ssl r)
      × (m.socket_context ≡ record { socket = sock; app_context = p })
  Connects r s socket_fail m = (lost : Lost) × (m.resources ≡ lose lost r) × (m.socket_context ≡ s)

  -- The machine while a connection is made: its context is on top.
  abbrev pub making : ℕ → Resources → SocketContext → N → Machine N
  making p r s n = machine (with_context p (record { ssl = 0; ssl_ctx = 0 }) r) s n

  module _ (p : ℕ) (r : Resources) (s : SocketContext) where
    give_up-Connects :
        (lost : Lost) (n : N) → Returns (Connects r s) (give_up p (making p (lose lost r) s n))
    give_up-Connects lost n =
        rw (give_up_lem p (record { ssl = 0; ssl_ctx = 0 }) (lose lost r) s n) (lost, refl, refl)

    handshake-Connects :
        (sock ssl_ctx ssl : ℕ) (n : N)
        → Returns (Connects r s) (
            handshake system p sock ssl_ctx ssl
              (making p (lose (a_session sock ssl_ctx ssl) r) s n))
    unfolding handshake
    handshake-Connects sock ssl_ctx ssl n =
        let (ret, n') = system.ssl_connect ssl n in
        Returns-if (Connects r s) (not (int_eq ret (pos 1))) (give_up p) _
          (making p (lose (a_session sock ssl_ctx ssl) r) s n')
          (give_up-Connects (a_session sock ssl_ctx ssl) n')
          (p, sock, ssl_ctx, ssl, rw (same p) refl, refl)

    secure-Connects :
        (sock : ℕ) (n : N)
        → Returns (Connects r s) (secure system p sock (making p (lose (a_socket sock) r) s n))
    unfolding secure
    secure-Connects sock n =
        let (ssl_ctx, n1) = system.ssl_ctx_new n in
        let (ssl, n2) = system.ssl_new ssl_ctx n1 in
        let (ret, n3) = system.ssl_set_fd ssl sock n2 in
        Returns-if (Connects r s) (ssl_ctx == 0) (give_up p) _
          (making p (lose (a_socket sock) r) s n1) (give_up-Connects (a_socket sock) n1)
          (Returns-if (Connects r s) (ssl == 0) (give_up p) _
            (making p (lose (a_context sock ssl_ctx) r) s n2)
            (give_up-Connects (a_context sock ssl_ctx) n2)
            (Returns-if (Connects r s) (int_eq ret (pos 0)) (give_up p)
              (handshake system p sock ssl_ctx ssl)
              (making p (lose (a_session sock ssl_ctx ssl) r) s n3)
              (give_up-Connects (a_session sock ssl_ctx ssl) n3)
              (handshake-Connects sock ssl_ctx ssl n3)))

    open_socket-Connects :
        (address : Bytes) (port : ℕ) (sock : ℤ) (n : N)
        → Returns (Connects r s) (open_socket system p address port sock (making p r s n))
    unfolding open_socket
    open_socket-Connects address port (negsuc k) n = give_up-Connects nothing n
    open_socket-Connects address port (pos sock) n =
        let (ret, n1) = system.connect sock address (port % 2 ^ 16) n in
        Returns-if (Connects r s) (int_eq ret minus_one) (give_up p) (secure system p sock)
          (making p (lose (a_socket sock) r) s n1) (give_up-Connects (a_socket sock) n1)
          (secure-Connects sock n1)

    open_host-Connects :
        (port : ℕ) (servhost : Option Bytes) (n : N)
        → Returns (Connects r s) (open_host system p port servhost (making p r s n))
    unfolding open_host
    open_host-Connects port none n = give_up-Connects nothing n
    open_host-Connects port (some address) n =
        let (sock, n1) = system.socket n in open_socket-Connects address port sock n1

  -- Every call of the system succeeds.
  pub record Works : Type 0 where
    pub hosts : (host : Bytes) (n : N) → (a : Bytes) × ((system.gethostbyname host n).0 ≡ some a)
    pub sockets : (n : N) → (s : ℕ) × ((system.socket n).0 ≡ pos s)
    pub connects :
        (s : ℕ) (a : Bytes) (port : ℕ) (n : N)
        → int_eq (system.connect s a port n).0 minus_one ≡ false
    pub contexts : (n : N) → 0 < (system.ssl_ctx_new n).0
    pub sessions : (c : ℕ) (n : N) → 0 < (system.ssl_new c n).0
    pub descriptors : (l s : ℕ) (n : N) → int_eq (system.ssl_set_fd l s n).0 (pos 0) ≡ false
    pub handshakes : (l : ℕ) (n : N) → (system.ssl_connect l n).0 ≡ pos 1

  abbrev Ok : SocketCode → Machine N → Type 0
  Ok code m = code ≡ socket_ok

  -- Where there is memory for its context, s_connect_cb returns. On success the connection's socket, SSL
  -- and SSL_CTX are open, and the socket context leads to them. On failure its own memory is released
  -- and the socket context is as it was; of the rest it has left open nothing, the socket, the socket
  -- with the SSL_CTX, or all three.
  pub s_connect_cb-Connects :
      (host : Bytes) (port : ℕ) (m : Machine N)
      → 0 < (system.malloc m.outside).0
      → Returns (Connects m.resources m.socket_context) (s_connect_cb system host port m)
  unfolding s_connect_cb
  s_connect_cb-Connects host port m given =
      let (p, n1) = system.malloc m.outside in
      let (servhost, n2) = system.gethostbyname host n1 in
      rw (nonnull p given, s_connect_cb)
        (open_host-Connects p m.resources m.socket_context port servhost n2)
