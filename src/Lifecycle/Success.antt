-- ===== src/Lifecycle/Success.antt =====
-- The operations where the Kii SDK does its part.
use thing_if_thing_sdk.Prelude.{
  Bool, true, false, Bytes, ◌<◌, nonzero, Option, some, ◌≡◌, ◌≢◌, arith,
}
use thing_if_thing_sdk.Flow.{Outcome, done, Returns}
use thing_if_thing_sdk.Kii.{
  Sdk, Address, zeroed_kii, TaskCreate, received_callback_entry, prv_update_status_entry,
  state_updater_param,
}
use thing_if_thing_sdk.Context.{Context}
use thing_if_thing_sdk.Thing.{
  Host, CommandHandlerResource, StateUpdaterResource, SystemCb, started, onboarded, command_context,
}
use thing_if_thing_sdk.Init.{thing_if_info, init_kii_thing_if, prv_init_kii_thing_if}
use thing_if_thing_sdk.Init.Wiring.{IsWired}
use thing_if_thing_sdk.Onboard.{
  OnboardOptions, prv_set_author, prv_onboard_with_vendor_thing_id, prv_onboard_with_thing_id,
  onboard_with_vendor_thing_id, onboard_with_thing_id,
}
use thing_if_thing_sdk.Onboard.Authors.{AuthorFits, IsOnboarded}
use thing_if_thing_sdk.Lifecycle.{task_name_status_update, start}

module _ {I W : Type 0} (sdk : Sdk I W) (h : Host I W) where
  -- init_kii_thing_if with an instance, an app and resources returns KII_TRUE, and the instance is
  -- connected, where the Kii SDK initialises a zeroed kii_t with the app's ID, key and host.
  pub init_kii_thing_if-succeeds :
      (self : Address) (app_id app_key app_host : Bytes) (commands : CommandHandlerResource I W)
      (states : StateUpdaterResource I W) (system_cb : SystemCb W) (resource_cb : Address)
      → 0 < self
      → nonzero
          (sdk._kii_init_with_info
            (some app_host)
            (some app_id)
            (some app_key)
            thing_if_info
            (zeroed_kii sdk)).0
        ≡ false
      → Returns
          (λ ok h'. (ok ≡ true) × IsWired self resource_cb commands states system_cb h'.thing)
          (init_kii_thing_if sdk self
            (some app_id)
            (some app_key)
            (some app_host)
            (some commands)
            (some states)
            system_cb
            resource_cb
            h)
  unfolding init_kii_thing_if prv_init_kii_thing_if
  init_kii_thing_if-succeeds self app_id app_key app_host commands states system_cb resource_cb
        given initialised =
      ground arith

  -- start returns KII_TRUE for an onboarded instance where the push routine of the command handler
  -- starts, and then has created exactly one task, the one that updates the state.
  pub start-succeeds :
      (create : TaskCreate W)
      → h.thing.state ≡ onboarded
      → h.thing.state_updater.task_create_cb ≡ some create
      → nonzero
          (sdk.kii_push_start_routine received_callback_entry h.thing.command_handler h.world).0
        ≡ false
      → Returns
          (λ ok h'.
            (ok ≡ true)
            × (h'.world
                ≡ (create task_name_status_update prv_update_status_entry state_updater_param
                    (sdk.kii_push_start_routine received_callback_entry h.thing.command_handler
                      h.world).2).1))
          (start sdk h)
  unfolding start
  start-succeeds create in_state given pushed = ground arith

  module _ (id password : Option Bytes) (options : OnboardOptions) where
    -- An operation returned KII_TRUE, both SDK instances have the author that the requests left in
    -- `c`, the state is ONBOARDED, and the error and the world are as the requests left them.
    abbrev pub Onboards : Context I W → Outcome (Host I W) Bool → Type 0
    Onboards c = Returns (λ ok h'.
        (ok ≡ true)
        × IsOnboarded sdk h'
        × (h'.thing.command_handler ≡ c.kii)
        × (h'.error ≡ c.error)
        × (h'.world ≡ c.world))

    -- An onboarding by vendor thing ID, or by thing ID, of an instance that is not started returns
    -- KII_TRUE where its requests succeed and the author that they left fits; both SDK instances then
    -- have that author, the state is ONBOARDED, and the caller's error and the world are as the
    -- requests left them.
    pub onboard-succeeds :
        (c d : Context I W)
        → h.thing.state ≢ started
        → AuthorFits sdk c.kii.author
        → AuthorFits sdk d.kii.author
        → prv_onboard_with_vendor_thing_id sdk id password options (command_context h) ≡ done true c
        → prv_onboard_with_thing_id sdk id password options (command_context h) ≡ done true d
        → Onboards c (onboard_with_vendor_thing_id sdk id password options h)
          × Onboards d (onboard_with_thing_id sdk id password options h)
    unfolding onboard_with_vendor_thing_id onboard_with_thing_id prv_set_author
    onboard-succeeds c d not_started fits fits' e e' = (ground arith, ground arith)
