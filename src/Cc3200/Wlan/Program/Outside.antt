-- ===== src/Cc3200/Wlan/Program/Outside.antt =====
-- What the calls of the CC3200 sample's driver leave of the world outside: events do not change it.
use thing_if_thing_sdk.Prelude.{
  Bool, true, false, ℕ, ℤ, List, [], ◌∷◌, ◌≡◌, refl, Bool-cases, inl, inr, if◌then◌else◌,
}
use thing_if_thing_sdk.Flow.{
  Outcome, done, fault, aborted, unfinished, Run, Returns, Ensures, Ensures-continue, pure,
}
use thing_if_thing_sdk.Cc3200.Wlan.{Globals, Common, Event, handle_events}
use thing_if_thing_sdk.Cc3200.Wlan.Driver.{
  Call, sl_wlan_connect, Station, next_batch, call, wait_until, waiting, wlan_connect,
  connected_with_ip,
}

-- The world outside after calls in order.
abbrev pub after_calls : {N : Type 0} → (Call → N → ℤ × N) → List Call → N → N
after_calls perform [] o = o
after_calls perform (c ∷ cs) o = after_calls perform cs (perform c o).1

module _ {N : Type 0} (common : Common) (perform : Call → N → ℤ × N) where
  -- A run leaves this world outside, if it ends.
  abbrev Leaves : {A : Type 0} → N → Outcome (Station N) A → Type 0
  Leaves o = Ensures (λ a t. t.outside ≡ o)

  handled-Leaves :
      (s : Station N) (r : Outcome Globals Unit)
      → Leaves s.outside (elim r as (λ _. Outcome (Station N) Unit) [
        | done a g ↦ done a (record s { globals = g })
        | aborted ↦ aborted
        | fault ↦ fault
        | unfinished ↦ unfinished
      ])
  handled-Leaves s (done a g) = refl
  handled-Leaves s aborted = tt
  handled-Leaves s fault = tt
  handled-Leaves s unfinished = tt

  next_batch-Leaves :
      (schedule : List (List Event)) (s : Station N)
      → Leaves s.outside (next_batch common perform schedule s)
  next_batch-Leaves [] s = refl
  next_batch-Leaves (batch ∷ later) s =
      handled-Leaves (record s { schedule = later }) (handle_events common batch s.globals)

  wait_until-Leaves :
      (test : ℕ → Bool) (schedule : List (List Event)) (g : Globals) (o : N)
      → Leaves o (wait_until common perform test schedule g o)
  unfolding wait_until
  wait_until-Leaves test [] g o = elim (Bool-cases (test g.g_ul_status)) [
    | inl on ↦ rw on refl
    | inr off ↦ rw off tt
  ]
  wait_until-Leaves test (batch ∷ later) g o = elim (Bool-cases (test g.g_ul_status)) [
    | inl on ↦ rw (on, wait_until) refl
    | inr off ↦
        rw (off, wait_until) (go (wait_until-Leaves test later) (handle_events common batch g))
  ]
    where
      go :
          ((g' : Globals) (o' : N) → Leaves o' (wait_until common perform test later g' o'))
          → (r : Outcome Globals Unit)
          → Leaves o (elim r as (λ _. Outcome (Station N) Unit) [
            | done a g' ↦ wait_until common perform test later g' o
            | aborted ↦ aborted
            | fault ↦ fault
            | unfinished ↦ unfinished
          ])
      go rest (done a g') = rest g' o
      go rest aborted = tt
      go rest fault = tt
      go rest unfinished = tt

  if-Leaves :
      (o : N) (b : Bool) (m n : Run (Station N) ℤ) (s : Station N)
      → Leaves o (m s)
      → Leaves o (n s)
      → Leaves o ((if b then m else n) s)
  if-Leaves o true m n s h k = h
  if-Leaves o false m n s h k = k

  -- wlan_connect makes one call.
  pub wlan_connect-Leaves :
      (s : Station N) → Leaves (perform sl_wlan_connect s.outside).1 (wlan_connect common perform s)
  unfolding wlan_connect
  wlan_connect-Leaves s =
      let (r, o) = perform sl_wlan_connect s.outside in
      let s1 : Station N = record s { outside = o } in
      Ensures-continue (λ _ t. t.outside ≡ o) (λ _ t. t.outside ≡ o) _
        (call common perform sl_wlan_connect s)
        (Ensures-continue (λ _ t. t.outside ≡ o) (λ _ t. t.outside ≡ o) (λ _. pure r)
          (next_batch common perform s.schedule s1) (next_batch-Leaves s.schedule s1) (λ _ t h. h))
        (λ r' t h. if-Leaves o (common.assert_on_error r') (pure r') _ t h (
          Ensures-continue (λ _ t. t.outside ≡ o) (λ _ t. t.outside ≡ o) (λ _. pure common.success)
            (waiting common perform (connected_with_ip common perform) t)
            (rw⁻¹ h
              (wait_until-Leaves (connected_with_ip common perform) t.schedule t.globals t.outside))
            (λ _ u h'. h')))

-- What holds of a run that returns, and what holds if it does.
pub Returns-Ensures :
    {S A : Type 0} (P Q : A → S → Type 0) (r : Outcome S A)
    → Returns P r
    → Ensures Q r
    → Returns (λ a s. P a s × Q a s) r
Returns-Ensures P Q (done a s) h k = (h, k)
Returns-Ensures P Q aborted h k = absurd h
Returns-Ensures P Q fault h k = absurd h
Returns-Ensures P Q unfinished h k = absurd h
