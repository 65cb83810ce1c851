-- ===== src/Init.antt =====
-- prv_init_kii_thing_if and init_kii_thing_if.
pub mod Wiring
use thing_if_thing_sdk.Prelude.{
  Bool, true, false, Bytes, codes, ℕ, ℤ, nonzero, Option, none, some, if◌then◌else◌, ◌==◌, not,
}
use thing_if_thing_sdk.Flow.{Outcome, done, aborted, fault, Run, pure, ◌>>=◌, ◌>>◌}
use thing_if_thing_sdk.Kii.{Kii, Sdk, Address, HttpContext}
use thing_if_thing_sdk.Context.{assert_fails}
use thing_if_thing_sdk.Thing.{
  ThingIf, Host, CommandHandlerResource, StateUpdaterResource, SystemCb, zeroed_thing, initialized,
  update_thing,
}

abbrev pub thing_if_info : Bytes
thing_if_info = codes "sn=tic;sv=1.0.1"

-- M_KII_THING_IF_ASSERT(p != NULL)
abbrev assert_given : {A S : Type 0} → Bool → Option A → Run S (Unit {0})
assert_given noassert none = assert_fails noassert
assert_given noassert (some a) = pure tt

-- A use of `*p`
abbrev dereference : {A S : Type 0} → Option A → Run S A
dereference none s = fault
dereference (some a) s = done a s

module _ {I W : Type 0} (sdk : Sdk I W) where
  -- memset on the resources' buffers
  clear_buffers : CommandHandlerResource I W → StateUpdaterResource I W → Run (Host I W) (Unit {0})
  clear_buffers commands states h =
      let w1 = sdk.memset commands.mqtt_buffer 0 commands.mqtt_buffer_size h.world in
      let w2 = sdk.memset commands.buffer 0 commands.buffer_size w1 in
      done tt (record h { world = sdk.memset states.buffer 0 states.buffer_size w2 })

  -- _kii_init_with_info(&kii_thing_if->command_handler, ...)
  init_command_handler : Option Bytes → Option Bytes → Option Bytes → Run (Host I W) ℤ
  init_command_handler app_host app_id app_key h =
      let (r, k) =
        sdk._kii_init_with_info app_host app_id app_key thing_if_info h.thing.command_handler in
      done r (record h { thing = record h.thing { command_handler = k } })

  -- _kii_init_with_info(&kii_thing_if->state_updater, ...)
  init_state_updater : Option Bytes → Option Bytes → Option Bytes → Run (Host I W) ℤ
  init_state_updater app_host app_id app_key h =
      let (r, k) =
        sdk._kii_init_with_info app_host app_id app_key thing_if_info h.thing.state_updater in
      done r (record h { thing = record h.thing { state_updater = k } })

  -- Lines 434 to 452.
  set_command_resource : Address → CommandHandlerResource I W → Address → ThingIf I W → ThingIf I W
  set_command_resource self commands resource_cb t = record t {
    command_handler = record t.command_handler {
      http_context = record t.command_handler.http_context {
        buffer = commands.buffer;
        buffer_size = commands.buffer_size;
      };
      mqtt_buffer = commands.mqtt_buffer;
      mqtt_buffer_size = commands.mqtt_buffer_size;
      kii_json_resource_cb = resource_cb;
      app_context = self;
    };
    action_handler = commands.action_handler;
    state_handler_for_command_reaction = commands.state_handler;
    custom_push_handler = commands.custom_push_handler;
  }

  -- Lines 459 to 470.
  set_state_resource : Address → StateUpdaterResource I W → Address → ThingIf I W → ThingIf I W
  set_state_resource self states resource_cb t = record t {
    state_updater = record t.state_updater {
      http_context = record t.state_updater.http_context {
        buffer = states.buffer;
        buffer_size = states.buffer_size;
      };
      kii_json_resource_cb = resource_cb;
      app_context = self;
    };
    state_handler_for_period = states.state_handler;
    state_update_period = states.period;
  }

  set_http_callbacks : SystemCb W → HttpContext → HttpContext
  set_http_callbacks cb context = record context {
    connect_cb = cb.socket_connect_cb;
    send_cb = cb.socket_send_cb;
    recv_cb = cb.socket_recv_cb;
    close_cb = cb.socket_close_cb;
  }

  -- Lines 473 to 494.
  set_command_callbacks : SystemCb W → Kii I W → Kii I W
  unfolding set_http_callbacks
  set_command_callbacks cb k = record k {
    http_context = set_http_callbacks cb k.http_context;
    mqtt_socket_connect_cb = cb.mqtt_socket_connect_cb;
    mqtt_socket_send_cb = cb.mqtt_socket_send_cb;
    mqtt_socket_recv_cb = cb.mqtt_socket_recv_cb;
    mqtt_socket_close_cb = cb.mqtt_socket_close_cb;
    task_create_cb = cb.task_create_cb;
    delay_ms_cb = cb.delay_ms_cb;
    logger_cb = cb.log_cb;
  }

  -- Lines 497 to 510.
  set_state_callbacks : SystemCb W → Kii I W → Kii I W
  unfolding set_http_callbacks
  set_state_callbacks cb k = record k {
    http_context = set_http_callbacks cb k.http_context;
    task_create_cb = cb.task_create_cb;
    delay_ms_cb = cb.delay_ms_cb;
    logger_cb = cb.log_cb;
  }

  module _ (self : Address) (app_id app_key app_host : Option Bytes)
      (command_handler_resource : Option (CommandHandlerResource I W))
      (state_updater_resource : Option (StateUpdaterResource I W)) (system_cb : SystemCb W)
      (resource_cb : Address) where
    unfoldable pub prv_init_kii_thing_if : Run (Host I W) Bool
    unfolding clear_buffers init_command_handler init_state_updater set_command_resource
        set_state_resource set_command_callbacks set_state_callbacks
    prv_init_kii_thing_if = do
      assert_given sdk.noassert (if self == 0 then none else some self)
      assert_given sdk.noassert app_id
      assert_given sdk.noassert app_key
      assert_given sdk.noassert app_host
      assert_given sdk.noassert command_handler_resource
      assert_given sdk.noassert state_updater_resource
      dereference (if self == 0 then none else some self)
      commands ← dereference command_handler_resource
      states ← dereference state_updater_resource
      update_thing (λ t. zeroed_thing sdk)
      clear_buffers commands states
      failed ← init_command_handler app_host app_id app_key
      if nonzero failed then pure false else do
        update_thing (set_command_resource self commands resource_cb)
        failed' ← init_state_updater app_host app_id app_key
        if nonzero failed' then pure false else do
          update_thing (λ t.
              let u = set_state_resource self states resource_cb t in
              record u {
                command_handler = set_command_callbacks system_cb u.command_handler;
                state_updater = set_state_callbacks system_cb u.state_updater;
                state = initialized;
              })
          pure true

    unfoldable pub init_kii_thing_if : Run (Host I W) Bool
    unfolding prv_init_kii_thing_if
    init_kii_thing_if = prv_init_kii_thing_if
