-- ===== src/Kii.antt =====
-- The parts of the Kii SDK's types (kii.h, jsmn.h: a git submodule that is not in this
-- repository) that kii_thing_if.c reads and writes, and the SDK's functions as a record of
-- parameters.
use thing_if_thing_sdk.Prelude.{Bool, Bytes, ℕ, ℤ, pos, List, [], Option, none}

pub record Author : Type 0 where
  pub author_id : Bytes
  pub access_token : Bytes

pub data HttpError : Type 0 where
  http_none http_insufficient_buffer http_socket http_invalid_response : HttpError

pub data TokenType : Type 0 where
  primitive object array string : TokenType

-- jsmntok_t
pub record Token : Type 0 where
  pub type : TokenType
  pub start : ℕ
  pub end : ℕ

pub data ParseResult : Type 0 where
  success partial_success root_type_error invalid_input : ParseResult

pub data FieldResult : Type 0 where
  field_success copy_failed type_unmatched not_found : FieldResult

pub data FieldType : Type 0 where
  field_string field_object field_array : FieldType

-- kii_json_field_t. A destination of `none` is the NULL of `field_copy.string`; else it is the text
-- in the buffer that it points to.
pub record Field : Type 0 where
  pub name : Option Bytes
  pub path : Option Bytes
  pub type : FieldType
  pub field_copy : Option Bytes
  pub field_copy_buff_size : ℕ
  pub result : FieldResult
  pub start : ℕ
  pub end : ℕ

-- A function pointer or a pointer that the code stores and does not call or follow; 0 is NULL.
abbrev pub Address : Type 0
Address = ℕ

-- The functions whose addresses this code hands on: what pushed messages are given to, and what a
-- task runs. Other code has its own.
pub data Entry : Type 0 where
  received_callback_entry prv_update_status_entry : Entry
  other_entry : Address → Entry

-- What a task is given: the address of the instance's state_updater, or another one.
pub data TaskParam : Type 0 where
  state_updater_param : TaskParam
  other_param : Address → TaskParam

-- KII_TASK_CREATE: the name, the function, its parameter.
abbrev pub TaskCreate : Type 0 → Type 0
TaskCreate W = Bytes → Entry → TaskParam → W → ℤ × W

-- kii_http_context_t, the callbacks and the buffer.
pub record HttpContext : Type 0 where
  pub buffer : Address
  pub buffer_size : ℕ
  pub connect_cb : Address
  pub send_cb : Address
  pub recv_cb : Address
  pub close_cb : Address
  pub http_error : HttpError

-- kii_t, with kii_core inlined. `I` is what the Kii SDK keeps there and this code does not name; `W`
-- is everything outside: the network, the other tasks' view, the application. A callback that this code calls is `none` for NULL.
pub record Kii (I W : Type 0) : Type 0 where
  pub app_id : Bytes
  pub app_key : Bytes
  pub app_host : Bytes
  pub author : Author
  pub http_context : HttpContext
  pub response_code : ℤ
  pub response_body : Bytes
  pub mqtt_buffer : Address
  pub mqtt_buffer_size : ℕ
  pub mqtt_socket_connect_cb : Address
  pub mqtt_socket_send_cb : Address
  pub mqtt_socket_recv_cb : Address
  pub mqtt_socket_close_cb : Address
  pub kii_json_resource_cb : Address
  pub tokens : List Token
  pub app_context : Address
  pub task_create_cb : Option (TaskCreate W)
  pub delay_ms_cb : Option (ℕ → W → W)
  pub logger_cb : Address
  pub internals : I

-- The functions of the Kii SDK and of jsmn, and the constants of kii.h and of the build.
pub record Sdk (I W : Type 0) : Type 0 where
  -- KII_THING_IF_NOASSERT
  pub noassert : Bool
  pub author_id_size : ℕ
  pub access_token_size : ℕ
  -- ULONGBUFSIZE, which depends on the platform's spelling of ULONG_MAX
  pub ulong_buf_size : ℕ
  -- what is in an array on the stack that nothing has written yet
  pub uninitialized : Bytes
  -- what memset leaves in the parts that this code does not name, and in two enumerations
  pub zeroed_internals : I
  pub zeroed_http_error : HttpError
  pub zeroed_result : FieldResult
  -- memset on one of the application's buffers
  pub memset : Address → ℕ → ℕ → W → W
  pub _kii_init_with_info :
      Option Bytes → Option Bytes → Option Bytes → Bytes → Kii I W → ℤ × Kii I W
  pub kii_api_call_start : Bytes → Bytes → Option Bytes → Bool → Kii I W → W → ℤ × Kii I W × W
  pub kii_api_call_append_body : Bytes → ℕ → Kii I W → W → ℤ × Kii I W × W
  pub kii_api_call_run : Kii I W → W → ℤ × Kii I W × W
  pub kii_json_read_object :
      List Token → Bytes → ℕ → List Field → ParseResult × List Token × List Field
  pub jsmn_parse : Bytes → ℕ → List Token → ℤ × List Token
  pub kii_push_start_routine : Entry → Kii I W → W → ℤ × Kii I W × W

-- A kii_t after memset.
abbrev pub zeroed_kii : {I W : Type 0} → Sdk I W → Kii I W
zeroed_kii sdk = record {
  app_id = [];
  app_key = [];
  app_host = [];
  author = record { author_id = []; access_token = [] };
  http_context = record {
    buffer = 0;
    buffer_size = 0;
    connect_cb = 0;
    send_cb = 0;
    recv_cb = 0;
    close_cb = 0;
    http_error = sdk.zeroed_http_error;
  };
  response_code = pos 0;
  response_body = [];
  mqtt_buffer = 0;
  mqtt_buffer_size = 0;
  mqtt_socket_connect_cb = 0;
  mqtt_socket_send_cb = 0;
  mqtt_socket_recv_cb = 0;
  mqtt_socket_close_cb = 0;
  kii_json_resource_cb = 0;
  tokens = [];
  app_context = 0;
  task_create_cb = none;
  delay_ms_cb = none;
  logger_cb = 0;
  internals = sdk.zeroed_internals;
}
