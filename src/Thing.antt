-- ===== src/Thing.antt =====
-- The types of include/kii_thing_if.h: the instance, its state, the handlers and the resources
-- that an application passes to the SDK.
use thing_if_thing_sdk.Prelude.{Bool, Bytes, ℕ, ℤ, pos, Option, none, []}
use thing_if_thing_sdk.Flow.{done, aborted, fault, unfinished, Run}
use thing_if_thing_sdk.Kii.{Kii, Sdk, Address, TaskCreate, zeroed_kii}
use thing_if_thing_sdk.Context.{Context, ErrorInfo}

-- kii_thing_if_state_t
pub data ThingState : Type 0 where
  initialized onboarded started : ThingState

-- KII_THING_IF_ACTION_HANDLER: alias, action name, action parameters and what is in the array for the
-- error message; returns the result and the array.
abbrev pub ActionHandler : Type 0 → Type 0
ActionHandler W = Bytes → Bytes → Bytes → Bytes → W → Bool × Bytes × W

-- EMESSAGE_SIZE
abbrev pub emessage_size : ℕ
emessage_size = 50

-- KII_THING_IF_WRITER
abbrev pub Writer : Type 0 → Type 0 → Type 0
Writer I W = Bytes → Run (Context I W) Bool

-- KII_THING_IF_STATE_HANDLER
abbrev pub StateHandler : Type 0 → Type 0 → Type 0
StateHandler I W = Writer I W → Run (Context I W) Bool

-- KII_THING_IF_CUSTOM_PUSH_HANDLER
abbrev pub CustomPushHandler : Type 0 → Type 0 → Type 0
CustomPushHandler I W = Bytes → ℕ → Run (Context I W) Bool

-- kii_thing_if_command_handler_resource_t; a handler is `none` for NULL.
pub record CommandHandlerResource (I W : Type 0) : Type 0 where
  pub buffer : Address
  pub buffer_size : ℕ
  pub mqtt_buffer : Address
  pub mqtt_buffer_size : ℕ
  pub action_handler : Option (ActionHandler W)
  pub state_handler : Option (StateHandler I W)
  pub custom_push_handler : Option (CustomPushHandler I W)

-- kii_thing_if_state_updater_resource_t
pub record StateUpdaterResource (I W : Type 0) : Type 0 where
  pub buffer : Address
  pub buffer_size : ℕ
  pub period : ℤ
  pub state_handler : Option (StateHandler I W)

-- kii_thing_if_system_cb_t
pub record SystemCb (W : Type 0) : Type 0 where
  pub task_create_cb : Option (TaskCreate W)
  pub delay_ms_cb : Option (ℕ → W → W)
  pub log_cb : Address
  pub socket_connect_cb : Address
  pub socket_send_cb : Address
  pub socket_recv_cb : Address
  pub socket_close_cb : Address
  pub mqtt_socket_connect_cb : Address
  pub mqtt_socket_send_cb : Address
  pub mqtt_socket_recv_cb : Address
  pub mqtt_socket_close_cb : Address

-- kii_thing_if_t
pub record ThingIf (I W : Type 0) : Type 0 where
  pub command_handler : Kii I W
  pub state_updater : Kii I W
  pub action_handler : Option (ActionHandler W)
  pub state_handler_for_period : Option (StateHandler I W)
  pub state_handler_for_command_reaction : Option (StateHandler I W)
  pub custom_push_handler : Option (CustomPushHandler I W)
  pub state_update_period : ℤ
  pub state : ThingState

-- A kii_thing_if_t after memset.
abbrev pub zeroed_thing : {I W : Type 0} → Sdk I W → ThingIf I W
zeroed_thing sdk = record {
  command_handler = zeroed_kii sdk;
  state_updater = zeroed_kii sdk;
  action_handler = none;
  state_handler_for_period = none;
  state_handler_for_command_reaction = none;
  custom_push_handler = none;
  state_update_period = pos 0;
  state = initialized;
}

-- What the public functions read and write: the instance, what `error` points to, and the rest.
pub record Host (I W : Type 0) : Type 0 where
  pub thing : ThingIf I W
  pub error : Option ErrorInfo
  pub world : W

module _ {I W : Type 0} where
  -- The context of a call with `&kii_thing_if->command_handler`.
  abbrev pub command_context : Host I W → Context I W
  command_context h = record {
    kii = h.thing.command_handler;
    error = h.error;
    message = [];
    world = h.world;
  }

  abbrev pub put_command_context : Host I W → Context I W → Host I W
  put_command_context h c = record {
    thing = record h.thing { command_handler = c.kii };
    error = c.error;
    world = c.world;
  }

  abbrev pub on_command_handler : {A : Type 0} → Run (Context I W) A → Run (Host I W) A
  on_command_handler m h = elim (m (command_context h)) [
    | done a c ↦ done a (put_command_context h c)
    | aborted ↦ aborted
    | fault ↦ fault
    | unfinished ↦ unfinished
  ]

  abbrev pub update_thing : (ThingIf I W → ThingIf I W) → Run (Host I W) (Unit {0})
  update_thing f h = done tt (record h { thing = f h.thing })
