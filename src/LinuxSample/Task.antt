-- ===== src/LinuxSample/Task.antt =====
-- The state handler of the sample, which always comes back, and the task that reports the state with it.
use thing_if_thing_sdk.Prelude.{
  Bool, true, false, Bytes, length, ℕ, zero, suc, ◌<◌, ℤ, nonzero, List, [], ◌∷◌, Option, none,
  some, ◌≡◌, refl, arith,
}
use thing_if_thing_sdk.Flow.{Returns, Returns-continue, Returns-if, pure}
use thing_if_thing_sdk.Kii.{Kii, Sdk}
use thing_if_thing_sdk.Context.{Context}
use thing_if_thing_sdk.Request.{append_body, prv_writer}
use thing_if_thing_sdk.Report.{delay_of, prv_update_status}
use thing_if_thing_sdk.Report.Rounds.{states_path}
use thing_if_thing_sdk.Report.Task.{Rounds, Steady, prv_update_status-Returns}
use thing_if_thing_sdk.LinuxSample.{
  Process, Platform, fgets, c_text, write_lines, write_all, write_state, state_handler, state_parts,
  prv_get_air_conditioner_info, zeroed_air_conditioner,
}
use thing_if_thing_sdk.LinuxSample.Reports.{fgets-shorter}

-- The functions of the Kii SDK that a report calls keep what holds of the kii_t.
pub record Keeping {I W : Type 0} (sdk : Sdk I W) (P : Kii I W → Type 0) : Type 0 where
  pub start_keeps :
      (method path : Bytes) (content_type : Option Bytes) (auth : Bool) (k : Kii I W) (w : W)
      → P k
      → P (sdk.kii_api_call_start method path content_type auth k w).1
  pub append_keeps :
      (s : Bytes) (n : ℕ) (k : Kii I W) (w : W) → P k → P (sdk.kii_api_call_append_body s n k w).1
  pub run_keeps : (k : Kii I W) (w : W) → P k → P (sdk.kii_api_call_run k w).1

module _ {I O : Type 0} (sdk : Sdk I (Process O)) (P : Kii I (Process O) → Type 0)
    (keeping : Keeping sdk P) where
  abbrev Kept : {A : Type 0} → A → Context I (Process O) → Type 0
  Kept a t = P t.kii

  prv_writer-Kept :
      (text : Bytes) (c : Context I (Process O)) → Kept tt c → Returns Kept (prv_writer sdk text c)
  unfolding prv_writer append_body
  prv_writer-Kept text c h =
      let (r, k, w) = sdk.kii_api_call_append_body text (length text) c.kii c.world in
      Returns-if Kept (nonzero r) (pure false) (pure true) (record c { kii = k; world = w })
        (keeping.append_keeps text (length text) c.kii c.world h)
        (keeping.append_keeps text (length text) c.kii c.world h)

  write_all-Kept :
      (texts : List Bytes) (c : Context I (Process O))
      → Kept tt c
      → Returns Kept (write_all (prv_writer sdk) texts c)
  unfolding write_all
  write_all-Kept [] c h = h
  write_all-Kept (text ∷ texts) c h =
      Returns-continue Kept Kept _ (prv_writer sdk text c) (prv_writer-Kept text c h) (λ ok t kept.
        Returns-if Kept ok (write_all (prv_writer sdk) texts) (pure false) t
          (write_all-Kept texts t kept) kept)

  write_lines-Kept :
      (fuel : ℕ) (bs : Bytes) (c : Context I (Process O))
      → length bs < fuel
      → Kept tt c
      → Returns Kept (write_lines (prv_writer sdk) fuel bs c)
  unfolding write_lines
  write_lines-Kept zero bs c f h = absurd (omega arith)
  write_lines-Kept (suc fuel) [] c f h = h
  write_lines-Kept (suc fuel) (b ∷ bs) c f h =
      let (line, rest) = fgets 255 (b ∷ bs) in
      let shorter = fgets-shorter 254 b bs in
      Returns-continue Kept Kept _ (prv_writer sdk (c_text line) c)
        (prv_writer-Kept (c_text line) c h)
        (λ ok t kept.
          Returns-if Kept ok (write_lines (prv_writer sdk) fuel rest) (pure false) t
            (write_lines-Kept fuel rest t (omega arith) kept) kept)

  module _ (platform : Platform O) where
    write_state-Kept :
        (c : Context I (Process O))
        → Kept tt c
        → Returns Kept (write_state platform (prv_writer sdk) c)
    unfolding write_state
    write_state-Kept c h =
        let (got, a, w) = prv_get_air_conditioner_info platform zeroed_air_conditioner c.world in
        Returns-if Kept got (write_all (prv_writer sdk) (state_parts platform a)) (pure false)
          (record c { world = w })
          (write_all-Kept (state_parts platform a) (record c { world = w }) h) h

    state_handler-Kept :
        (file : Option Bytes) (c : Context I (Process O))
        → platform.state_file c.world.others ≡ file
        → Kept tt c
        → Returns Kept (state_handler platform (prv_writer sdk) c)
    unfolding state_handler
    state_handler-Kept (some bs) c e h =
        rw (e, state_handler) (write_lines-Kept (suc (length bs)) bs c (omega arith) h)
    state_handler-Kept none c e h = rw (e, state_handler) (write_state-Kept c h)

    pub state_handler-Returns :
        (c : Context I (Process O))
        → P c.kii
        → Returns (λ ok t. P t.kii) (state_handler platform (prv_writer sdk) c)
    state_handler-Returns c h = state_handler-Kept (platform.state_file c.world.others) c refl h

module _ {I O : Type 0} (sdk : Sdk I (Process O)) (delay_ms_cb : ℕ → Process O → Process O) where
  -- The delay callback is in its place.
  abbrev pub Delays : Kii I (Process O) → Type 0
  Delays k = k.delay_ms_cb ≡ some delay_ms_cb

  module _ (keeping : Keeping sdk Delays) (platform : Platform O) where
    steady : Steady sdk delay_ms_cb (state_handler platform)
    steady = record {
      start_keeps = keeping.start_keeps;
      run_keeps = keeping.run_keeps;
      handler_returns = state_handler-Returns sdk Delays keeping platform;
    }

    -- The sample's report task never ends, whatever the mutex and the file do, where the path of the
    -- states fits its array: each round calls the delay callback with the period in milliseconds and
    -- makes one report with the sample's state handler, whether or not it gets through.
    pub prv_update_status-state_handler :
        (period : ℤ) {msec : ℕ}
        → delay_of period ≡ some msec
        → (fuel : ℕ) (c : Context I (Process O)) → Delays c.kii
        → length (states_path c) < 256
        → Rounds sdk delay_ms_cb
            (state_handler platform)
            (states_path c)
            msec
            fuel
            c
            (prv_update_status sdk period (some (state_handler platform)) fuel c)
    prv_update_status-state_handler period in_range fuel c h fits =
        prv_update_status-Returns sdk delay_ms_cb (state_handler platform) steady period in_range
          fuel c h fits
