-- ===== src/LinuxSample/Program/Equipped.antt =====
-- The handlers of an instance through the calls that main makes of it.
use thing_if_thing_sdk.Prelude.{true, Bytes, pos, Option, some, ◌≡◌, arith}
use thing_if_thing_sdk.Flow.{Ensures}
use thing_if_thing_sdk.Kii.{Sdk}
use thing_if_thing_sdk.Thing.{Host, ThingIf}
use thing_if_thing_sdk.Init.{prv_init_kii_thing_if, init_kii_thing_if}
use thing_if_thing_sdk.Onboard.{
  OnboardOptions, onboard_with_vendor_thing_id, onboard_with_thing_id,
  init_kii_thing_if_with_onboarded_thing,
}
use thing_if_thing_sdk.Lifecycle.{perform, init, init_onboarded}
use thing_if_thing_sdk.LinuxSample.{
  Process, Platform, action_handler, state_handler, custom_push_handler,
}
use thing_if_thing_sdk.LinuxSample.Program.{Surroundings, init_arguments}

module _ {I O : Type 0} (platform : Platform O) where
  -- The instance has the handlers of the sample and its period of 60 seconds.
  pub record Equipped (t : ThingIf I (Process O)) : Type 0 where
    pub actions : t.action_handler ≡ some (action_handler platform)
    pub period_states : t.state_handler_for_period ≡ some (state_handler platform)
    pub command_states : t.state_handler_for_command_reaction ≡ some (state_handler platform)
    pub pushes : t.custom_push_handler ≡ some (custom_push_handler platform)
    pub period : t.state_update_period ≡ pos 60

  module _ (sdk : Sdk I (Process O)) where
    module _ (id password : Option Bytes) (options : OnboardOptions) (h : Host I (Process O))
        (equipped : Equipped h.thing) where
      pub vendor-Equipped :
          Ensures
            (λ _ h'. Equipped h'.thing)
            (onboard_with_vendor_thing_id sdk id password options h)
      unfolding onboard_with_vendor_thing_id
      vendor-Equipped = ground arith

      pub thing-Equipped :
          Ensures (λ _ h'. Equipped h'.thing) (onboard_with_thing_id sdk id password options h)
      unfolding onboard_with_thing_id
      thing-Equipped = ground arith

    module _ (around : Surroundings O) (h : Host I (Process O)) where
      pub init-Equipped :
          Ensures
            (λ ok h'. ok ≡ true → Equipped h'.thing)
            (perform sdk (init (init_arguments sdk platform around)) h)
      unfolding perform init_kii_thing_if prv_init_kii_thing_if
      init-Equipped = ground arith

      pub init_onboarded-Equipped :
          (thing_id access_token : Bytes)
          → Ensures
              (λ ok h'. ok ≡ true → Equipped h'.thing)
              (perform sdk
                (init_onboarded (init_arguments sdk platform around) thing_id access_token)
                h)
      unfolding perform init_kii_thing_if_with_onboarded_thing prv_init_kii_thing_if
      init_onboarded-Equipped thing_id access_token = ground arith
