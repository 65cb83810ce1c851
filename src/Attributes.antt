-- ===== src/Attributes.antt =====
-- The firmware version and the thing type: get_firmware_version, update_firmware_version,
-- get_thing_type and update_thing_type.
pub mod Replies
pub mod Sends
pub mod Answers
use thing_if_thing_sdk.Prelude.{
  Bool, true, false, Bytes, codes, length, ℕ, nonzero, List, [], ◌∷◌, Option, none, some, get_elem?,
  if◌then◌else◌,
}
use thing_if_thing_sdk.Flow.{Outcome, done, aborted, fault, Run, pure, gets, ◌>>=◌, ◌>>◌, any_fails}
use thing_if_thing_sdk.Kii.{
  Kii, Sdk, Field, FieldResult, field_success, copy_failed, type_unmatched, not_found, field_string,
}
use thing_if_thing_sdk.Context.{
  Context, set_error, on_error, invalid_state, insufficient_buffer, insufficient_arg_buffer,
  invalid_payload,
}
use thing_if_thing_sdk.Request.{append_body, prv_append_key_value_string, prv_kii_api_call_start}
use thing_if_thing_sdk.ResourcePath.{
  prv_set_firmware_version_resource_path, prv_set_thing_type_resource_path,
}
use thing_if_thing_sdk.Session.{
  is_success, copied_text, field_by_path, prv_kii_thing_if_json_read_object,
  prv_execute_http_session,
}
use thing_if_thing_sdk.Thing.{ThingState, Host, initialized, onboarded, started, on_command_handler}

abbrev pub content_update_firmware_version : Bytes
content_update_firmware_version = codes "application/vnd.kii.ThingFirmwareVersionUpdateRequest+json"

abbrev pub content_update_thing_type : Bytes
content_update_thing_type = codes "application/vnd.kii.ThingTypeUpdateRequest+json"

-- `fields[0].result == KII_JSON_FIELD_PARSE_COPY_FAILED`
abbrev pub first_copy_failed : List Field → Bool
first_copy_failed [] = false
first_copy_failed (f ∷ fs) = elim f.result [
  | field_success ↦ false
  | copy_failed ↦ true
  | type_unmatched ↦ false
  | not_found ↦ false
]

module _ {I W : Type 0} (sdk : Sdk I W) where
  -- The `else` of both get functions: clear the caller's array of `size` bytes, and read the
  -- member of the response at `path` into it. Returns the text in the array.
  pub read_attribute : Bytes → ℕ → Run (Context I W) (Bool × Bytes)
  read_attribute path size = do
    response_body ← gets (λ c. c.kii.response_body)
    (r, fields) ←
        prv_kii_thing_if_json_read_object sdk response_body
          (field_by_path sdk path field_string (some []) size ∷ [])
    if is_success r then pure (true, copied_text fields 0 []) else (do
      if first_copy_failed fields
          then set_error insufficient_arg_buffer
          else set_error invalid_payload
      pure (false, copied_text fields 0 []))

  -- The case KII_THING_IF_STATE_ONBOARDED of a get function, from its resource path.
  pub get_attribute : Option Bytes → Bytes → Bytes → ℕ → Run (Context I W) (Bool × Bytes)
  unfolding read_attribute
  get_attribute none path text size = pure (false, text)
  get_attribute (some resource_path) path text size = do
    failed ← prv_kii_api_call_start sdk (codes "GET") resource_path none true
    if nonzero failed then pure (false, text) else do
      succeeded ← prv_execute_http_session sdk
      if succeeded then read_attribute path size else pure (false, text)

  -- The case KII_THING_IF_STATE_ONBOARDED of an update function, from its resource path.
  pub update_attribute : Option Bytes → Bytes → Bytes → Option Bytes → Run (Context I W) Bool
  update_attribute none content_type key value = pure false
  update_attribute (some resource_path) content_type key value = do
    failed ← prv_kii_api_call_start sdk (codes "PUT") resource_path (some content_type) true
    if nonzero failed then pure false else do
      overflowed ← any_fails (
          append_body sdk (codes "{")
          ∷ prv_append_key_value_string sdk (some key) value false
          ∷ append_body sdk (codes "}")
          ∷ [])
      if overflowed
          then (do set_error insufficient_buffer; pure false)
          else prv_execute_http_session sdk

  -- The switch over the state, which all four functions begin with.
  abbrev pub when_onboarded : {A : Type 0} → A → Run (Context I W) A → ThingState → Run (Host I W) A
  when_onboarded refused m initialized h =
      done refused (record h { error = on_error (λ e. record e { code = invalid_state }) h.error })
  when_onboarded refused m started h =
      done refused (record h { error = on_error (λ e. record e { code = invalid_state }) h.error })
  when_onboarded refused m onboarded h = on_command_handler m h

  -- `firmware_version` is the text in the caller's array of `firmware_version_len` bytes; the text
  -- there afterwards is returned beside the result.
  unfoldable pub get_firmware_version : Bytes → ℕ → Run (Host I W) (Bool × Bytes)
  unfolding get_attribute
  get_firmware_version firmware_version firmware_version_len h =
      when_onboarded (false, firmware_version)
        (do
          app_id ← gets (λ c. c.kii.app_id)
          author ← gets (λ c. c.kii.author)
          path ← prv_set_firmware_version_resource_path sdk.noassert app_id author.author_id 128
          get_attribute path (codes "/firmwareVersion") firmware_version firmware_version_len)
        h.thing.state h

  unfoldable pub update_firmware_version : Option Bytes → Run (Host I W) Bool
  unfolding update_attribute
  update_firmware_version firmware_version h =
      when_onboarded false
        (do
          app_id ← gets (λ c. c.kii.app_id)
          author ← gets (λ c. c.kii.author)
          path ← prv_set_firmware_version_resource_path sdk.noassert app_id author.author_id 128
          update_attribute path content_update_firmware_version (codes "firmwareVersion")
              firmware_version)
        h.thing.state h

  unfoldable pub get_thing_type : Bytes → ℕ → Run (Host I W) (Bool × Bytes)
  unfolding get_attribute
  get_thing_type thing_type thing_type_len h =
      when_onboarded (false, thing_type)
        (do
          app_id ← gets (λ c. c.kii.app_id)
          author ← gets (λ c. c.kii.author)
          path ← prv_set_thing_type_resource_path sdk.noassert app_id author.author_id 128
          get_attribute path (codes "/thingType") thing_type thing_type_len)
        h.thing.state h

  unfoldable pub update_thing_type : Option Bytes → Run (Host I W) Bool
  unfolding update_attribute
  update_thing_type thing_type h =
      when_onboarded false
        (do
          app_id ← gets (λ c. c.kii.app_id)
          author ← gets (λ c. c.kii.author)
          path ← prv_set_thing_type_resource_path sdk.noassert app_id author.author_id 128
          update_attribute path content_update_thing_type (codes "thingType") thing_type)
        h.thing.state h
