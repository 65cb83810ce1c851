-- ===== src/Cc3200/Wlan/Waiting.antt =====
-- The loops of the CC3200 sample that wait for events, and the connection to the access point.
use thing_if_thing_sdk.Prelude.{
  Bool, true, false, ℕ, zero, suc, ◌<◌, ℤ, List, [], ◌∷◌, Option, none, some, drop, ◌≡◌, refl, sym,
  ◌∙◌, arith, Bool-cases, inl, inr,
}
use mathlib.Core.Option.{none-ne-some}
use thing_if_thing_sdk.Flow.{Outcome, done, fault, aborted, unfinished, Returns, continue, pure}
use thing_if_thing_sdk.Cc3200.Wlan.{Globals, Common, Event, handle_events}
use thing_if_thing_sdk.Cc3200.Wlan.Driver.{
  Call, sl_wlan_connect, Station, wait_until, call, wlan_connect, connected_with_ip, on_globals,
}
use thing_if_thing_sdk.Cc3200.Wlan.Events.{Bits, AllReadable, Wellformed, handle_events-Wellformed}

-- The globals after the first batches of a schedule, if it has so many.
abbrev pub after_batches : Common → ℕ → List (List Event) → Globals → Option Globals
after_batches common zero schedule g = some g
after_batches common (suc k) [] g = none
after_batches common (suc k) (batch ∷ later) g = elim (handle_events common batch g) [
  | done a g' ↦ after_batches common k later g'
  | aborted ↦ none
  | fault ↦ none
  | unfinished ↦ none
]

abbrev pub ScheduleReadable : Common → List (List Event) → Type 0
ScheduleReadable common [] = Unit
ScheduleReadable common (batch ∷ later) = AllReadable common batch × ScheduleReadable common later

-- The test fails after each of the first batches.
abbrev pub FailsBefore : Common → (ℕ → Bool) → ℕ → List (List Event) → Globals → Type 0
FailsBefore common test k schedule g =
    (j : ℕ) (g' : Globals)
    → j < k
    → after_batches common j schedule g ≡ some g'
    → test g'.g_ul_status ≡ false

-- The test fails however many batches have arrived.
abbrev pub NeverHolds : Common → (ℕ → Bool) → List (List Event) → Globals → Type 0
NeverHolds common test schedule g =
    (j : ℕ) (g' : Globals)
    → after_batches common j schedule g ≡ some g'
    → test g'.g_ul_status ≡ false

-- How a wait ends: with the value, after the fewest batches that make the test hold, or, where none do, never.
abbrev pub Waits :
    {N A : Type 0}
    → Common
    → (ℕ → Bool)
    → A
    → List (List Event)
    → Globals
    → Outcome (Station N) A
    → Type 0
Waits common test a schedule g (done b s) =
    (b ≡ a)
    × (test s.globals.g_ul_status ≡ true)
    × Wellformed common s.globals
    × ((k : ℕ) × (after_batches common k schedule g ≡ some s.globals)
        × (s.schedule ≡ drop k schedule)
        × FailsBefore common test k schedule g)
Waits common test a schedule g unfinished = NeverHolds common test schedule g
Waits common test a schedule g aborted = ⊥
Waits common test a schedule g fault = ⊥

-- The end of a run that returns.
Returns-done :
    {S A : Type 0} (P : A → S → Type 0) (r : Outcome S A)
    → Returns P r
    → (a : A) × (s : S) × (r ≡ done a s) × P a s
Returns-done P (done a s) h = (a, s, refl, h)
Returns-done P aborted h = absurd h
Returns-done P fault h = absurd h
Returns-done P unfinished h = absurd h

module _ (common : Common) (test : ℕ → Bool) where
  -- Where the test fails at once.
  fails_now :
      (g g' : Globals) → test g.g_ul_status ≡ false → some g ≡ some g' → test g'.g_ul_status ≡ false
  fails_now g g' off e = let same : g ≡ g' = cc in rw (sym same) off

  never_without_events : (g : Globals) → test g.g_ul_status ≡ false → NeverHolds common test [] g
  never_without_events g off zero g' e = fails_now g g' off e
  never_without_events g off (suc j) g' e = absurd (none-ne-some g' e)

  module _ (batch : List Event) (later : List (List Event)) (g g' : Globals)
      (handled : handle_events common batch g ≡ done tt g') (off : test g.g_ul_status ≡ false) where
    one_more :
        (k : ℕ) → after_batches common (suc k) (batch ∷ later) g ≡ after_batches common k later g'
    one_more k = rw (handled, after_batches) refl

    NeverHolds-later : NeverHolds common test later g' → NeverHolds common test (batch ∷ later) g
    NeverHolds-later never zero t e = fails_now g t off e
    NeverHolds-later never (suc j) t e = never j t (sym (one_more j) ∙ e)

    FailsBefore-later :
        (k : ℕ)
        → FailsBefore common test k later g'
        → FailsBefore common test (suc k) (batch ∷ later) g
    FailsBefore-later k fails zero t h e = fails_now g t off e
    FailsBefore-later k fails (suc j) t h e = fails j t (omega arith) (sym (one_more j) ∙ e)

    Waits-later :
        {N : Type 0} (r : Outcome (Station N) Unit)
        → Waits common test tt later g' r
        → Waits common test tt (batch ∷ later) g r
    Waits-later (done a s) (same, holds, w, (k, e, rest, fails)) =
        (same, holds, w, (suc k, one_more k ∙ e, rest, FailsBefore-later k fails))
    Waits-later unfinished never = NeverHolds-later never
    Waits-later aborted h = absurd h
    Waits-later fault h = absurd h

module _ {N : Type 0} (common : Common) (bits : Bits common) (perform : Call → N → ℤ × N) where
  handled_batch :
      (batch : List Event) (g : Globals)
      → AllReadable common batch
      → Wellformed common g
      → (g' : Globals) × (handle_events common batch g ≡ done tt g') × Wellformed common g'
  handled_batch batch g h w =
      let (a, g', e, w') =
        Returns-done (λ _ g'. Wellformed common g') (handle_events common batch g)
          (handle_events-Wellformed common bits batch g h w) in
      (g', e, w')

  holds_now :
      (test : ℕ → Bool) (schedule : List (List Event)) (g : Globals) (o : N)
      → test g.g_ul_status ≡ true
      → Wellformed common g
      → Waits common test tt schedule g
          (done tt (record { globals = g; schedule = schedule; outside = o }))
  holds_now test schedule g o on w =
      (refl, on, w, (0, refl, refl, λ j g' h e. absurd (omega arith)))

  pub wait_until-Waits :
      (test : ℕ → Bool) (schedule : List (List Event)) (g : Globals) (o : N)
      → ScheduleReadable common schedule
      → Wellformed common g
      → Waits common test tt schedule g (wait_until common perform test schedule g o)
  unfolding wait_until
  wait_until-Waits test [] g o h w = elim (Bool-cases (test g.g_ul_status)) [
    | inl on ↦ rw on (holds_now test [] g o on w)
    | inr off ↦ rw off (never_without_events common test g off)
  ]
  wait_until-Waits test (batch ∷ later) g o h w = elim (Bool-cases (test g.g_ul_status)) [
    | inl on ↦ rw (on, wait_until) (holds_now test (batch ∷ later) g o on w)
    | inr off ↦
        let (g', e, w') = handled_batch batch g h.0 w in
        rw (off, e, wait_until)
          (Waits-later common test batch later g g' e off
            (wait_until common perform test later g' o) (wait_until-Waits test later g' o h.1 w'))
  ]

  -- A wait hands its value on.
  Waits-pure :
      {A : Type 0} (test : ℕ → Bool) (a : A) (schedule : List (List Event)) (g : Globals)
      (r : Outcome (Station N) Unit)
      → Waits common test tt schedule g r
      → Waits common test a schedule g (continue (λ _. pure a) r)
  Waits-pure test a schedule g (done b s) (same, holds, w, fewest) = (refl, holds, w, fewest)
  Waits-pure test a schedule g unfinished h = h
  Waits-pure test a schedule g aborted h = absurd h
  Waits-pure test a schedule g fault h = absurd h

  -- How many batches arrive during one call.
  abbrev pub arrived : List (List Event) → ℕ
  arrived [] = 0
  arrived (batch ∷ later) = 1

  -- A station after a call during which the globals became the given ones.
  abbrev pub after_call : Station N → Call → Globals → Station N
  after_call s c g = record {
    globals = g;
    schedule = drop (arrived s.schedule) s.schedule;
    outside = (perform c s.outside).1;
  }

  call_handled :
      (c : Call) (batch : List Event) (later : List (List Event)) (g g' : Globals) (o : N)
      → handle_events common batch g ≡ done tt g'
      → let s : Station N = record { globals = g; schedule = batch ∷ later; outside = o } in
        call common perform c s ≡ done (perform c o).0 (after_call s c g')
  call_handled c batch later g g' o e = rw (e, on_globals) refl

  pub call-returns :
      (c : Call) (schedule : List (List Event)) (g : Globals) (o : N)
      → ScheduleReadable common schedule
      → Wellformed common g
      → let s : Station N = record { globals = g; schedule = schedule; outside = o } in
        (g' : Globals) × (after_batches common (arrived schedule) schedule g ≡ some g')
        × (call common perform c s ≡ done (perform c o).0 (after_call s c g'))
        × Wellformed common g'
        × ScheduleReadable common (drop (arrived schedule) schedule)
  call-returns c [] g o h w = (g, refl, refl, w, tt)
  call-returns c (batch ∷ later) g o h w =
      let (g', e, w') = handled_batch batch g h.0 w in
      (g', rw (e, after_batches) refl, call_handled c batch later g g' o e, w', h.1)

  -- Readable events arrive, one batch during the call of sl_WlanConnect. Where ASSERT_ON_ERROR takes
  -- the call's result for an error, that is the result. Where it does not, the loop ends after the
  -- fewest further batches that leave the station connected and with an IP address, with SUCCESS and
  -- with the rest of the batches still to come; where none do, it waits for ever. Nothing is accessed
  -- outside an array.
  pub wlan_connect-Waits :
      (s : Station N)
      → ScheduleReadable common s.schedule
      → Wellformed common s.globals
      → (g : Globals) × (after_batches common (arrived s.schedule) s.schedule s.globals ≡ some g)
        × (common.assert_on_error (perform sl_wlan_connect s.outside).0 ≡ true
            → wlan_connect common perform s
              ≡ done (perform sl_wlan_connect s.outside).0 (after_call s sl_wlan_connect g))
        × (common.assert_on_error (perform sl_wlan_connect s.outside).0 ≡ false
            → Waits common
                (connected_with_ip common perform)
                common.success
                (drop (arrived s.schedule) s.schedule)
                g
                (wlan_connect common perform s))
  unfolding wlan_connect
  wlan_connect-Waits s h w =
      let test = connected_with_ip common perform in
      let (g, arrival, e, w', h') =
        call-returns sl_wlan_connect s.schedule s.globals s.outside h w in
      let later = drop (arrived s.schedule) s.schedule in
      (
        g,
        arrival,
        λ error. rw (wlan_connect, e, error) refl,
        λ fine.
            rw (wlan_connect, e, fine)
              (Waits-pure test common.success later g
                (wait_until common perform test later g (perform sl_wlan_connect s.outside).1)
                (wait_until-Waits test later g (perform sl_wlan_connect s.outside).1 h' w')),
      )
