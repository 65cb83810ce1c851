-- ===== src/Report/Task.antt =====
-- The rounds of the task of the state updater.
use thing_if_thing_sdk.Prelude.{
  Bool, true, Bytes, codes, length, ℕ, zero, suc, ℤ, Option, none, some, ◌≡◌, ◌<◌, refl, sym, arith,
}
use thing_if_thing_sdk.Flow.{
  Outcome, done, aborted, fault, unfinished, Returns, Returns-weaken, ◌>>=◌, continue,
}
use thing_if_thing_sdk.Kii.{Kii, Sdk}
use thing_if_thing_sdk.Context.{Context}
use thing_if_thing_sdk.Request.{prv_writer}
use thing_if_thing_sdk.ResourcePath.Bounds.{Builds-fits, prv_set_state_resource_path-Builds}
use thing_if_thing_sdk.Thing.{StateHandler}
use thing_if_thing_sdk.Report.{
  delay_of, delay, send_report, content_update_state, report_loop, prv_update_status,
}
use thing_if_thing_sdk.Report.Rounds.{
  Reports, not_started, given_up, ran, after, put_state, states_path, send_report-Reports,
}
use mathlib.Core.Path.{subst}

-- The SDK and the application leave the delay callback alone, and the state handler returns.
pub record Steady {I W : Type 0} (sdk : Sdk I W) (delay_ms_cb : ℕ → W → W)
    (handler : StateHandler I W) : Type 0 where
  pub start_keeps :
      (method path : Bytes) (content_type : Option Bytes) (auth : Bool) (k : Kii I W) (w : W)
      → k.delay_ms_cb ≡ some delay_ms_cb
      → (sdk.kii_api_call_start method path content_type auth k w).1.delay_ms_cb ≡ some delay_ms_cb
  pub run_keeps :
      (k : Kii I W) (w : W)
      → k.delay_ms_cb ≡ some delay_ms_cb
      → (sdk.kii_api_call_run k w).1.delay_ms_cb ≡ some delay_ms_cb
  pub handler_returns :
      (c : Context I W)
      → c.kii.delay_ms_cb ≡ some delay_ms_cb
      → Returns (λ ok t. t.kii.delay_ms_cb ≡ some delay_ms_cb) (handler (prv_writer sdk) c)

module _ {I W : Type 0} (sdk : Sdk I W) (delay_ms_cb : ℕ → W → W) (handler : StateHandler I W) where
  -- `n` rounds of the task, from a context to what has become of it: each calls the delay callback
  -- and makes one report, and after the last one it has not ended.
  abbrev pub Rounds : Bytes → ℕ → ℕ → Context I W → Outcome (Context I W) (Unit {0}) → Type 0
  Rounds path msec zero c r = r ≡ unfinished
  Rounds path msec (suc n) c r =
      (ok : Bool) × (t : Context I W) × Reports sdk handler path
        (record c { world = delay_ms_cb msec c.world }) ok t
      × Rounds path msec n t r

module _ {I W : Type 0} (sdk : Sdk I W) (delay_ms_cb : ℕ → W → W) (handler : StateHandler I W)
    (steady : Steady sdk delay_ms_cb handler) (period : ℤ) {msec : ℕ}
    (in_range : delay_of period ≡ some msec) where
  -- The delay callback is in its place.
  abbrev Kept : Context I W → Type 0
  Kept t = t.kii.delay_ms_cb ≡ some delay_ms_cb

  Reports-Kept :
      (path : Bytes) (c : Context I W) (ok : Bool) (t : Context I W)
      → Kept c
      → Reports sdk handler path c ok t
      → Kept t
  Reports-Kept path c ok t h r = go r
    where
      started : Kept (after (put_state sdk handler path c) c)
      started =
          steady.start_keeps (codes "PUT") path (some content_update_state) true c.kii c.world h

      go : {ok : Bool} {t : Context I W} → Reports sdk handler path c ok t → Kept t
      go (not_started e) = started
      go (given_up e returned) =
          subst (Returns (λ _ u. Kept u)) returned (steady.handler_returns _ started)
      go (ran {t = u} e returned) =
          steady.run_keeps u.kii u.world
            (subst (Returns (λ _ u. Kept u)) returned (steady.handler_returns _ started))

  round_goes :
      (path : Bytes) (fuel : ℕ) (c : Context I W) (r : Outcome (Context I W) Bool)
      → Returns (Reports sdk handler path c) r
      → Kept c
      → ((t : Context I W)
          → Kept t
          → Rounds sdk delay_ms_cb handler path msec fuel t
              (report_loop sdk path period (some handler) fuel t))
      → (ok : Bool) × (t : Context I W) × Reports sdk handler path c ok t
        × Rounds sdk delay_ms_cb handler path msec fuel t
            (continue (λ _. report_loop sdk path period (some handler) fuel) r)
  round_goes path fuel c (done ok t) reported h rest =
      (ok, t, reported, rest t (Reports-Kept path c ok t h reported))
  round_goes path fuel c aborted reported h rest = absurd reported
  round_goes path fuel c fault reported h rest = absurd reported
  round_goes path fuel c unfinished reported h rest = absurd reported

  delay_goes :
      (c : Context I W)
      → Kept c
      → ◌≡◌ {A = Outcome (Context I W) (Unit {0})}
          (delay sdk period c)
          (done tt (record c { world = delay_ms_cb msec c.world }))
  unfolding delay
  delay_goes c h =
      rw (in_range, delay)
        (subst
          (λ cb.
            ◌≡◌ {A = Outcome (Context I W) (Unit {0})}
              (elim cb [
                | none ↦ fault
                | some delay_ms ↦ done tt (record c { world = delay_ms msec c.world })
              ])
              (done tt (record c { world = delay_ms_cb msec c.world })))
          (sym h) refl)

  report_loop-Rounds :
      (path : Bytes) (fuel : ℕ) (c : Context I W)
      → Kept c
      → Rounds sdk delay_ms_cb handler path msec fuel c
          (report_loop sdk path period (some handler) fuel c)
  unfolding report_loop
  report_loop-Rounds path zero c h = refl
  report_loop-Rounds path (suc fuel) c h =
      let c1 : Context I W = record c { world = delay_ms_cb msec c.world } in
      rw (delay_goes c h, ◌>>=◌)
        ((round_goes path fuel c1 (send_report sdk path (some handler) c1)
          (send_report-Reports sdk handler path c1 (
            Returns-weaken _ _ _ (λ _ _ _. tt)
              (steady.handler_returns _ (
                steady.start_keeps (codes "PUT") path (some content_update_state) true c1.kii
                  c1.world h))))
          h (report_loop-Rounds path fuel)))

  -- Where the path of the states fits its array, prv_update_status never ends: for any number of
  -- rounds, it calls the delay callback with the period in milliseconds and makes one report in each
  -- of them, whether or not the requests start, the handler succeeds, and the requests run, and has
  -- not ended after them.
  pub prv_update_status-Returns :
      (fuel : ℕ) (c : Context I W)
      → c.kii.delay_ms_cb ≡ some delay_ms_cb
      → length (states_path c) < 256
      → Rounds sdk delay_ms_cb handler
          (states_path c)
          msec
          fuel
          c
          (prv_update_status sdk period (some handler) fuel c)
  unfolding prv_update_status
  prv_update_status-Returns fuel c h fits =
      let e =
        Builds-fits sdk.noassert 256 (states_path c)
          (prv_set_state_resource_path-Builds sdk.noassert c.kii.app_id 256 c.kii.author.author_id
            (omega arith) c)
          fits in
      rw (e, ◌>>=◌) (report_loop-Rounds (states_path c) fuel c h)
