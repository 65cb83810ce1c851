-- ===== src/Cc3200/Light/States.antt =====
-- What the state handler of the smart light adds to a request.
use thing_if_thing_sdk.Prelude.{length, ◌≤◌, ◌<◌}
use thing_if_thing_sdk.Kii.{Sdk}
use thing_if_thing_sdk.Context.{Context}
use thing_if_thing_sdk.Request.{prv_writer}
use thing_if_thing_sdk.Request.Writes.{Buffering}
use thing_if_thing_sdk.LinuxSample.Reports.{
  joined, Wrote, Refused, write_all-Wrote, write_all-Refused,
}
use thing_if_thing_sdk.Cc3200.Light.{Board, Firmware, state_parts, state_handler, zeroed_light}
use thing_if_thing_sdk.Cc3200.Light.Actions.{Working, unlocked, prv_get_smartlight_info_lem}

module _ {O I : Type 0} (firmware : Firmware O) where
  -- The instance after a report: the lock was taken and released.
  abbrev pub after_report : Context I (Board O) → Context I (Board O)
  after_report c = record c { world = record c.world { others = unlocked firmware c.world.others } }

  module _ (working : Working firmware) (sdk : Sdk I (Board O)) (buffering : Buffering sdk) where
    -- With a working lock, the state of the light is appended to the request as a whole where it fits,
    -- and otherwise the handler fails. The light is as it was.
    pub state_handler-Writes :
        (c : Context I (Board O))
        → let text = joined (state_parts firmware c.world.m_smartlight) in
          let r = state_handler firmware (prv_writer sdk) c in
          (length text ≤ buffering.room c.kii.internals
            → Wrote sdk buffering text (after_report c) r)
          × (buffering.room c.kii.internals < length text
              → Refused sdk buffering (after_report c) r)
    unfolding state_handler
    state_handler-Writes c =
        let texts = state_parts firmware c.world.m_smartlight in
        rw (prv_get_smartlight_info_lem firmware working zeroed_light c.world, state_handler)
          (
            write_all-Wrote sdk buffering texts (after_report c),
            write_all-Refused sdk buffering texts (after_report c),
          )
