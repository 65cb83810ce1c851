-- ===== src/Cc3200/Light.antt =====
-- The smart light of cc3200-sample/freertos_thingsdk_demo/main.c: the light that its lock protects, its
-- action handler, which still takes a schema and its version, and its state handler. Report and printf,
-- which only write to the terminal, are left out.
pub mod Actions
pub mod States
use thing_if_thing_sdk.Prelude.{
  Bool, true, false, Bytes, codes, length, drop, bytes_eq, ℕ, ◌+◌, zero, suc, ℤ, pos, int_eq, List,
  [], ◌∷◌, ◌++◌, Option, none, some, ◌&&◌, not, leb, if◌then◌else◌,
}
use thing_if_thing_sdk.Flow.{Outcome, done, fault, aborted, unfinished, Run, pure, ◌>>=◌, ◌>>◌}
use thing_if_thing_sdk.Context.{Context}
use thing_if_thing_sdk.Thing.{StateHandler, Writer, emessage_size}
use thing_if_thing_sdk.LinuxSample.{put_text, signed_decimal, write_all}

-- prv_smartlight_t
pub record Light : Type 0 where
  pub power : Bool
  pub brightness : ℤ
  pub color_0 : ℤ
  pub color_1 : ℤ
  pub color_2 : ℤ
  pub color_temperature : ℤ

-- m_smartlight, and the rest of the board, m_mutex among it.
pub record Board (O : Type 0) : Type 0 where
  pub m_smartlight : Light
  pub others : O

pub data FieldType : Type 0 where
  field_boolean field_integer : FieldType

-- `field_copy` of a field.
pub record Value : Type 0 where
  pub boolean_value : Bool
  pub int_value : ℤ

-- The operating system's lock and the JSON reader of the Kii SDK.
pub record Firmware (O : Type 0) : Type 0 where
  pub osi_lock_obj_lock : O → ℤ × O
  pub osi_lock_obj_unlock : O → ℤ × O
  pub osi_ok : ℤ
  -- `b == KII_JSON_TRUE`
  pub is_kii_json_true : Bool → Bool
  -- kii_json_read_object with the text and its length, the paths and types of the fields, and the
  -- array for its error and its length: whether it returned KII_JSON_PARSE_SUCCESS, the values in
  -- order, and the array.
  pub kii_json_read_object :
      Bytes → ℕ → List (Bytes × FieldType) → Bytes → ℕ → Bool × List Value × Bytes

-- A value, or what memset left.
abbrev pub value_at : ℕ → List Value → Value
value_at n [] = record { boolean_value = false; int_value = pos 0 }
value_at zero (v ∷ vs) = v
value_at (suc n) (v ∷ vs) = value_at n vs

-- A light after memset.
abbrev pub zeroed_light : Light
zeroed_light = record {
  power = false;
  brightness = pos 0;
  color_0 = pos 0;
  color_1 = pos 0;
  color_2 = pos 0;
  color_temperature = pos 0;
}

-- What an action asks for: the fields that are read of its parameters, and what becomes of the light.
pub record Change : Type 0 where
  pub fields : List (Bytes × FieldType)
  pub apply : List Value → Light → Light

abbrev pub turn_power : Change
turn_power = record {
  fields = (codes "/power", field_boolean) ∷ [];
  apply = λ vs l. record l { power = (value_at 0 vs).boolean_value };
}

abbrev pub set_brightness : Change
set_brightness = record {
  fields = (codes "/brightness", field_integer) ∷ [];
  apply = λ vs l. record l { brightness = (value_at 0 vs).int_value };
}

abbrev pub set_color : Change
set_color = record {
  fields =
      (codes "/color/[0]", field_integer)
      ∷ (codes "/color/[1]", field_integer)
      ∷ (codes "/color/[2]", field_integer)
      ∷ [];
  apply = λ vs l. record l {
    color_0 = (value_at 0 vs).int_value;
    color_1 = (value_at 1 vs).int_value;
    color_2 = (value_at 2 vs).int_value;
  };
}

abbrev pub set_color_temperature : Change
set_color_temperature = record {
  fields = (codes "/colorTemperature", field_integer) ∷ [];
  apply = λ vs l. record l { color_temperature = (value_at 0 vs).int_value };
}

-- The `else if` chain over the action's name.
abbrev pub change_of : Bytes → Option Change
change_of name =
    if bytes_eq name (codes "turnPower")
    then some turn_power
    else (if bytes_eq name (codes "setBrightness")
        then some set_brightness
        else (if bytes_eq name (codes "setColor")
            then some set_color
            else (if bytes_eq name (codes "setColorTemperature")
                then some set_color_temperature
                else none)))

module _ {O : Type 0} (firmware : Firmware O) where
  unfoldable pub prv_get_smartlight_info : Light → Board O → Bool × Light × Board O
  prv_get_smartlight_info smartlight b =
      let (r, o) = firmware.osi_lock_obj_lock b.others in
      if not (int_eq r firmware.osi_ok)
      then (false, smartlight, record b { others = o })
      else let (r', o') = firmware.osi_lock_obj_unlock o in
        (int_eq r' (pos 0), b.m_smartlight, record b { others = o' })

  unfoldable pub prv_set_smartlight_info : Light → Board O → Bool × Board O
  prv_set_smartlight_info smartlight b =
      let (r, o) = firmware.osi_lock_obj_lock b.others in
      if not (int_eq r firmware.osi_ok)
      then (false, record b { others = o })
      else let (r', o') = firmware.osi_lock_obj_unlock o in
        (int_eq r' firmware.osi_ok, record { m_smartlight = smartlight; others = o' })

  abbrev pub prv_json_read_object :
      Bytes → ℕ → List (Bytes × FieldType) → Bytes → Bool × List Value × Bytes
  prv_json_read_object json json_len fields error =
      firmware.kii_json_read_object json json_len fields error (emessage_size + 1)

  -- Lines 785 to 789.
  abbrev pub set_light : Light → Bytes → Run (Board O) (Bool × Bytes)
  set_light smartlight error b =
      let (was_set, b') = prv_set_smartlight_info smartlight b in done (was_set, error) b'

  -- One branch of the chain, from the reader to the end.
  abbrev pub perform_change : Change → Bytes → Light → Bytes → Run (Board O) (Bool × Bytes)
  perform_change change action_params smartlight error =
      let (parsed, values, error') =
        prv_json_read_object action_params (length action_params) change.fields error in
      if parsed then set_light (change.apply values smartlight) error' else pure (false, error')

  -- An unknown action leaves the array alone.
  abbrev pub choose : Option Change → Bytes → Light → Bytes → Run (Board O) (Bool × Bytes)
  choose none action_params smartlight error = pure (false, error)
  choose (some change) action_params smartlight error =
      perform_change change action_params smartlight error

  -- Lines 715 to 790.
  abbrev pub handle : Bytes → Bytes → Bytes → Run (Board O) (Bool × Bytes)
  handle action_name action_params error b =
      let (got, smartlight, b') = prv_get_smartlight_info zeroed_light b in
      (if got
          then choose (change_of action_name) action_params smartlight error
          else pure (false, put_text (codes "fail to lock.") error))
        b'

  -- The result and the array for the error message. sprintf writes the whole message of a wrong schema,
  -- which faults where the array is too short.
  unfoldable pub action_handler : Bytes → ℤ → Bytes → Bytes → Bytes → Run (Board O) (Bool × Bytes)
  unfolding prv_get_smartlight_info prv_set_smartlight_info
  action_handler schema schema_version action_name action_params error =
      let message =
        codes "invalid schema: " ++ (schema ++ (codes " " ++ signed_decimal schema_version)) in
      if not (bytes_eq schema (codes "SmartLightDemo")) && not (int_eq schema_version (pos 1))
      then (λ b.
          if leb (suc emessage_size) (length message)
          then fault
          else done (false, put_text message error) b)
      else handle action_name action_params error

  abbrev pub state_parts : Light → List Bytes
  state_parts l =
      codes "{\"power\":"
      ∷ (if firmware.is_kii_json_true l.power then codes "true," else codes "false,")
      ∷ codes "\"brightness\":"
      ∷ (signed_decimal l.brightness ++ codes ",")
      ∷ codes "\"color\":"
      ∷ (codes "["
          ++ (signed_decimal l.color_0
              ++ (codes ","
                  ++ (signed_decimal l.color_1
                      ++ (codes "," ++ (signed_decimal l.color_2 ++ codes "],"))))))
      ∷ codes "\"colorTemperature\":"
      ∷ (signed_decimal l.color_temperature ++ codes "}")
      ∷ []

  unfoldable pub state_handler : {I : Type 0} → StateHandler I (Board O)
  unfolding prv_get_smartlight_info
  state_handler writer c =
      let (got, l, b) = prv_get_smartlight_info zeroed_light c.world in
      (if got then write_all writer (state_parts l) else pure false) (record c { world = b })
