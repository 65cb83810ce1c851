-- ===== src/Init/Wiring.antt =====
-- What an initialised instance is connected to.
use thing_if_thing_sdk.Prelude.{true, Bytes, ℕ, Option, some, ◌≡◌, arith}
use thing_if_thing_sdk.Flow.{Ensures}
use thing_if_thing_sdk.Kii.{Kii, Sdk, Address, HttpContext}
use thing_if_thing_sdk.Thing.{
  ThingIf, Host, CommandHandlerResource, StateUpdaterResource, SystemCb, initialized,
}
use thing_if_thing_sdk.Init.{init_kii_thing_if, prv_init_kii_thing_if}

-- The HTTP context has the given buffer and the socket callbacks of the system.
pub record HasHttp {W : Type 0} (buffer : Address) (size : ℕ) (cb : SystemCb W) (h : HttpContext)
    : Type 0 where
  pub buffer_set : h.buffer ≡ buffer
  pub size_set : h.buffer_size ≡ size
  pub connect_set : h.connect_cb ≡ cb.socket_connect_cb
  pub send_set : h.send_cb ≡ cb.socket_send_cb
  pub recv_set : h.recv_cb ≡ cb.socket_recv_cb
  pub close_set : h.close_cb ≡ cb.socket_close_cb

module _ {I W : Type 0} where
  -- The task, delay and log callbacks, the JSON resource, and the pointer back to the instance.
  pub record HasSystem (self resource_cb : Address) (cb : SystemCb W) (k : Kii I W) : Type 0 where
    pub task_set : k.task_create_cb ≡ cb.task_create_cb
    pub delay_set : k.delay_ms_cb ≡ cb.delay_ms_cb
    pub log_set : k.logger_cb ≡ cb.log_cb
    pub resource_set : k.kii_json_resource_cb ≡ resource_cb
    pub context_set : k.app_context ≡ self

  pub record HasMqtt (commands : CommandHandlerResource I W) (cb : SystemCb W) (k : Kii I W)
      : Type 0 where
    pub buffer_set : k.mqtt_buffer ≡ commands.mqtt_buffer
    pub size_set : k.mqtt_buffer_size ≡ commands.mqtt_buffer_size
    pub connect_set : k.mqtt_socket_connect_cb ≡ cb.mqtt_socket_connect_cb
    pub send_set : k.mqtt_socket_send_cb ≡ cb.mqtt_socket_send_cb
    pub recv_set : k.mqtt_socket_recv_cb ≡ cb.mqtt_socket_recv_cb
    pub close_set : k.mqtt_socket_close_cb ≡ cb.mqtt_socket_close_cb

  pub record IsWired (self resource_cb : Address) (commands : CommandHandlerResource I W)
      (states : StateUpdaterResource I W) (cb : SystemCb W) (t : ThingIf I W) : Type 0 where
    pub command_http :
        HasHttp commands.buffer commands.buffer_size cb t.command_handler.http_context
    pub command_system : HasSystem self resource_cb cb t.command_handler
    pub command_mqtt : HasMqtt commands cb t.command_handler
    pub updater_http : HasHttp states.buffer states.buffer_size cb t.state_updater.http_context
    pub updater_system : HasSystem self resource_cb cb t.state_updater
    pub actions_set : t.action_handler ≡ commands.action_handler
    pub reaction_set : t.state_handler_for_command_reaction ≡ commands.state_handler
    pub push_set : t.custom_push_handler ≡ commands.custom_push_handler
    pub period_handler_set : t.state_handler_for_period ≡ states.state_handler
    pub period_set : t.state_update_period ≡ states.period
    pub state_set : t.state ≡ initialized

module _ {I W : Type 0} (sdk : Sdk I W) (self : Address) (app_id app_key app_host : Option Bytes)
    (commands : CommandHandlerResource I W) (states : StateUpdaterResource I W)
    (system_cb : SystemCb W) (resource_cb : Address) (h : Host I W) where
  -- init_kii_thing_if, where it returns KII_TRUE, leaves an instance in the state INITIALIZED in which
  -- both SDK instances have their buffers, all callbacks of the system and the way back to the
  -- instance, and the instance has the handlers and the period of the resources.
  pub init_kii_thing_if-IsWired :
      Ensures
        (λ ok h'. ok ≡ true → IsWired self resource_cb commands states system_cb h'.thing)
        (init_kii_thing_if sdk self app_id app_key app_host
          (some commands)
          (some states)
          system_cb
          resource_cb
          h)
  unfolding init_kii_thing_if prv_init_kii_thing_if
  init_kii_thing_if-IsWired = ground arith
