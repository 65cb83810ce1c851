-- ===== src/LinuxEnvironment/Delays.antt =====
-- How long the report task of the sample sleeps between two reports.
use thing_if_thing_sdk.Prelude.{ℕ, ◌*◌, ◌%◌, ◌^◌, ◌≤◌, ◌<◌, pos, some, ◌≡◌, refl, arith}
use thing_if_thing_sdk.Flow.{done}
use thing_if_thing_sdk.Report.{delay_of}
use thing_if_thing_sdk.LinuxEnvironment.{Machine, System}
use thing_if_thing_sdk.LinuxEnvironment.Callbacks.{delay_ms_cb}

delay_of_lem : (n msec : ℕ) → delay_of (pos n) ≡ some msec → msec ≡ n * 1000
unfolding delay_of
delay_of_lem n msec e = ground arith

module _ {N : Type 0} (system : System N) where
  -- For a period of n seconds, for which the SDK asks for msec milliseconds, the callback asks the
  -- system for n million microseconds if n is at most 4294, and for fewer if it is larger.
  pub delay_ms_cb-bounds :
      (n msec : ℕ) (m : Machine N)
      → delay_of (pos n) ≡ some msec
      → (us : ℕ) × (delay_ms_cb system msec m
          ≡ done tt (record m { outside = system.usleep us m.outside }))
        × (n ≤ 4294 → us ≡ n * 1000000)
        × (4294 < n → us < n * 1000000)
  unfolding delay_ms_cb
  delay_ms_cb-bounds n msec m e =
      let same = delay_of_lem n msec e in
      ((msec * 1000) % 2 ^ 32, refl, omega (arith, same), omega (arith, same))
