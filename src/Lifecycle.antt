-- ===== src/Lifecycle.antt =====
-- start, and the public functions as the operations of one instance.
pub mod States
pub mod Success
use thing_if_thing_sdk.Prelude.{
  Bool, true, false, Bytes, codes, ℕ, ℤ, nonzero, List, [], ◌∷◌, Option, none, some, if◌then◌else◌,
}
use thing_if_thing_sdk.Flow.{Outcome, done, aborted, fault, unfinished, Run, pure, ◌>>=◌, ◌>>◌}
use thing_if_thing_sdk.Kii.{
  Kii, Sdk, Address, received_callback_entry, other_entry, prv_update_status_entry,
  state_updater_param,
}
use thing_if_thing_sdk.Context.{Context, call}
use thing_if_thing_sdk.Thing.{
  ThingIf, ThingState, Host, initialized, onboarded, started, CommandHandlerResource,
  StateUpdaterResource, SystemCb, on_command_handler,
}
use thing_if_thing_sdk.Init.{init_kii_thing_if}
use thing_if_thing_sdk.Onboard.{
  OnboardOptions, onboard_with_vendor_thing_id, onboard_with_thing_id,
  init_kii_thing_if_with_onboarded_thing,
}
use thing_if_thing_sdk.Attributes.{
  get_firmware_version, update_firmware_version, get_thing_type, update_thing_type,
}

-- KII_THING_IF_TASK_NAME_STATUS_UPDATE
abbrev pub task_name_status_update : Bytes
task_name_status_update = codes "status_update_task"

-- The arguments of the two initialisers.
pub record InitArguments (I W : Type 0) : Type 0 where
  pub self : Address
  pub app_id : Option Bytes
  pub app_key : Option Bytes
  pub app_host : Option Bytes
  pub command_handler_resource : Option (CommandHandlerResource I W)
  pub state_updater_resource : Option (StateUpdaterResource I W)
  pub system_cb : SystemCb W
  pub resource_cb : Address

-- The calls that an application can make of one instance.
pub data Operation (I W : Type 0) : Type 0 where
  init : InitArguments I W → Operation I W
  init_onboarded : InitArguments I W → Bytes → Bytes → Operation I W
  onboard_vendor : Option Bytes → Option Bytes → OnboardOptions → Operation I W
  onboard_thing : Option Bytes → Option Bytes → OnboardOptions → Operation I W
  start_thing : Operation I W
  get_version : Bytes → ℕ → Operation I W
  update_version : Option Bytes → Operation I W
  get_type : Bytes → ℕ → Operation I W
  update_type : Option Bytes → Operation I W

module _ {I W : Type 0} (sdk : Sdk I W) where
  -- state_updater.task_create_cb(...), whose result is ignored: the task runs prv_update_status on
  -- the instance's state_updater.
  create_update_task : Run (Host I W) (Unit {0})
  create_update_task h = elim h.thing.state_updater.task_create_cb [
    | none ↦ fault
    | some task_create_cb ↦
        let (r, w) =
          task_create_cb task_name_status_update prv_update_status_entry state_updater_param
            h.world in
        done tt (record h { world = w })
  ]

  start_in : ThingState → Run (Host I W) Bool
  unfolding create_update_task
  start_in initialized = pure false
  start_in started = pure false
  start_in onboarded = do
    failed ← on_command_handler (call (sdk.kii_push_start_routine received_callback_entry))
    if nonzero failed then pure false else do create_update_task; pure true

  unfoldable pub start : Run (Host I W) Bool
  unfolding start_in
  start h = start_in h.thing.state h

  abbrev succeeds : Run (Host I W) (Bool × Bytes) → Run (Host I W) Bool
  succeeds m = do (succeeded, text) ← m; pure succeeded

  -- A call with its kii_bool_t result.
  unfoldable pub perform : Operation I W → Run (Host I W) Bool
  perform (init a) =
      init_kii_thing_if sdk a.self a.app_id a.app_key a.app_host a.command_handler_resource
        a.state_updater_resource a.system_cb a.resource_cb
  perform (init_onboarded a thing_id access_token) =
      init_kii_thing_if_with_onboarded_thing sdk a.self a.app_id a.app_key a.app_host thing_id
        access_token a.command_handler_resource a.state_updater_resource a.system_cb a.resource_cb
  perform (onboard_vendor id password options) =
      onboard_with_vendor_thing_id sdk id password options
  perform (onboard_thing id password options) = onboard_with_thing_id sdk id password options
  perform start_thing = start
  perform (get_version text size) = succeeds (get_firmware_version sdk text size)
  perform (update_version version) = update_firmware_version sdk version
  perform (get_type text size) = succeeds (get_thing_type sdk text size)
  perform (update_type thing_type) = update_thing_type sdk thing_type

  pub perform_all : List (Operation I W) → Run (Host I W) (Unit {0})
  perform_all [] = pure tt
  perform_all (op ∷ ops) = perform op >> perform_all ops
