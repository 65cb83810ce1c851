-- ===== src/LinuxEnvironment/Ledger.antt =====
-- The lists of what was handed out: what was put on one last is found and taken off first.
use thing_if_thing_sdk.Prelude.{true, ℕ, List, ◌∷◌, Option, some, ◌==◌, ◌≡◌, refl, arith}
use thing_if_thing_sdk.Flow.{done, pure, bind_done}
use thing_if_thing_sdk.LinuxEnvironment.{
  SslContext, socket_fail, Resources, Machine, remove, remove_context, find, replace, context_at,
  free, give_up, update_if, less_context, SocketContext,
}

pub same : (p : ℕ) → (p == p) ≡ true
same p = ground arith

pub remove-head : (p : ℕ) (qs : List ℕ) → remove p (p ∷ qs) ≡ some qs
remove-head p qs = rw (same p) refl

module _ (p : ℕ) (v : SslContext) (es : List (ℕ × SslContext)) where
  pub remove_context-head : remove_context p ((p, v) ∷ es) ≡ some es
  remove_context-head = rw (same p) refl

  pub find-head : find p ((p, v) ∷ es) ≡ some v
  find-head = rw (same p) refl

  pub replace-head : (u : SslContext) → replace p u ((p, v) ∷ es) ≡ (p, u) ∷ es
  replace-head u = rw (same p) refl

-- The resources with one socket context more.
abbrev pub with_context : ℕ → SslContext → Resources → Resources
with_context p v r = record r { heap = (p, v) ∷ r.heap }

module _ {N : Type 0} where
  abbrev pub machine : Resources → SocketContext → N → Machine N
  machine r s n = record { resources = r; socket_context = s; outside = n }

  pub update_if_lem :
      (f : Resources → Option Resources) (m : Machine N) (r : Resources)
      → f m.resources ≡ some r
      → update_if f m ≡ done tt (record m { resources = r })
  update_if_lem f m r e = rw (e, update_if) refl

  pub context_at_lem :
      (p : ℕ) (m : Machine N) (v : SslContext)
      → find p m.resources.heap ≡ some v
      → context_at p m ≡ done v m
  context_at_lem p m v e = rw (e, context_at) refl

  pub free_lem :
      (p : ℕ) (v : SslContext) (r : Resources) (s : SocketContext) (n : N)
      → free p (machine (with_context p v r) s n) ≡ done tt (machine r s n)
  free_lem p v r s n =
      update_if_lem (less_context p) (machine (with_context p v r) s n) r
        (rw (remove_context-head p v r.heap) refl)

  -- A connection that is given up frees its context, and only that.
  pub give_up_lem :
      (p : ℕ) (v : SslContext) (r : Resources) (s : SocketContext) (n : N)
      → give_up p (machine (with_context p v r) s n) ≡ done socket_fail (machine r s n)
  give_up_lem p v r s n =
      bind_done (free p) (λ _. pure socket_fail) {s = machine (with_context p v r) s n}
        (free_lem p v r s n)
