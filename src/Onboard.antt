-- ===== src/Onboard.antt =====
-- Onboarding: prv_kii_thing_if_get_anonymous_token, prv_onboard_with_vendor_thing_id,
-- prv_onboard_with_thing_id, prv_set_author and the three public functions over them.
pub mod Authors
pub mod Bodies
pub mod Failures
pub mod Reading
pub mod Sends
use thing_if_thing_sdk.Prelude.{
  Bool, true, false, Bytes, codes, length, ℕ, ◌+◌, ℤ, pos, minus_one, nonzero, List, [], ◌∷◌, ◌++◌,
  Option, none, some, leb, if◌then◌else◌, not,
}
use thing_if_thing_sdk.Flow.{Outcome, done, aborted, fault, Run, pure, gets, ◌>>=◌, ◌>>◌, any_fails}
use thing_if_thing_sdk.Kii.{Kii, Sdk, Author, Address, field_string}
use thing_if_thing_sdk.Context.{
  Context, ErrorInfo, call, set_error, set_author, on_error, to_size, sprintf_into, invalid_state,
  insufficient_buffer, invalid_payload,
}
use thing_if_thing_sdk.Request.{
  append_body, prv_append_key_value_string, prv_append_key_value_string_optional,
  prv_append_key_value_object_optional,
}
use thing_if_thing_sdk.ResourcePath.{app_path, oauth_path, prv_set_onboard_resource_path}
use thing_if_thing_sdk.Session.{
  is_success, copied_text, field_by_path, prv_kii_thing_if_json_read_object,
  prv_execute_http_session, prv_thing_if_parse_onboarding_response,
}
use thing_if_thing_sdk.Thing.{
  ThingIf, ThingState, Host, initialized, onboarded, started, CommandHandlerResource,
  StateUpdaterResource, SystemCb, on_command_handler, update_thing,
}
use thing_if_thing_sdk.Init.{prv_init_kii_thing_if}

abbrev pub content_type_vendor_thing_id : Bytes
content_type_vendor_thing_id = codes "application/vnd.kii.OnboardingWithVendorThingIDByThing+json"

abbrev pub content_type_thing_id : Bytes
content_type_thing_id = codes "application/vnd.kii.OnboardingWithThingIDByThing+json"

-- The optional arguments of the onboarding functions; NULL is `none`.
pub record OnboardOptions : Type 0 where
  pub thing_type : Option Bytes
  pub firmware_version : Option Bytes
  pub layout_position : Option Bytes
  pub thing_properties : Option Bytes

module _ {I W : Type 0} (sdk : Sdk I W) where
  -- The condition over the body of the token request.
  unfoldable pub token_body_fails : Bytes → Bytes → Run (Context I W) Bool
  token_body_fails app_id app_key = any_fails (
      append_body sdk (codes "{")
      ∷ prv_append_key_value_string sdk (some (codes "grant_type"))
          (some (codes "client_credentials")) false
      ∷ prv_append_key_value_string sdk (some (codes "client_id")) (some app_id) true
      ∷ prv_append_key_value_string sdk (some (codes "client_secret")) (some app_key) true
      ∷ append_body sdk (codes "}")
      ∷ [])

  -- What follows a token request that succeeded.
  unfoldable pub read_access_token : Run (Context I W) ℤ
  read_access_token = do
    author ← gets (λ c. c.kii.author)
    response_body ← gets (λ c. c.kii.response_body)
    (r, fields) ← prv_kii_thing_if_json_read_object sdk response_body (
        field_by_path sdk (codes "/access_token") field_string (some author.access_token)
          sdk.access_token_size
        ∷ [])
    set_author (record author { access_token = copied_text fields 0 author.access_token })
    if is_success r then pure (pos 0) else (do set_error invalid_payload; pure minus_one)

  unfoldable pub prv_kii_thing_if_get_anonymous_token : Run (Context I W) ℤ
  unfolding token_body_fails read_access_token
  prv_kii_thing_if_get_anonymous_token = do
    app_id ← gets (λ c. c.kii.app_id)
    if leb 64 (to_size (length app_path + length app_id + length oauth_path))
        then (do set_error insufficient_buffer; pure minus_one)
        else (do
          resource_path ← sprintf_into 64 (app_path ++ (app_id ++ oauth_path))
          failed ← call (
              sdk.kii_api_call_start (codes "POST") resource_path (some (codes "application/json"))
                false)
          if nonzero failed then (do set_error insufficient_buffer; pure minus_one) else do
            client_id ← gets (λ c. c.kii.app_id)
            client_secret ← gets (λ c. c.kii.app_key)
            overflowed ← token_body_fails client_id client_secret
            if overflowed then (do set_error insufficient_buffer; pure minus_one) else do
              succeeded ← prv_execute_http_session sdk
              if succeeded then read_access_token else pure minus_one)

  -- The condition over the body of the onboarding request; the first member names the ID.
  unfoldable pub onboard_body_fails :
      Bytes → Option Bytes → Option Bytes → OnboardOptions → Run (Context I W) Bool
  onboard_body_fails id_key id password options = any_fails (
      append_body sdk (codes "{")
      ∷ prv_append_key_value_string sdk (some id_key) id false
      ∷ prv_append_key_value_string sdk (some (codes "thingPassword")) password true
      ∷ prv_append_key_value_string_optional sdk (some (codes "thingType")) options.thing_type true
      ∷ prv_append_key_value_object_optional sdk (some (codes "thingProperties"))
          options.thing_properties true
      ∷ prv_append_key_value_string_optional sdk (some (codes "firmwareVersion"))
          options.firmware_version true
      ∷ prv_append_key_value_string_optional sdk (some (codes "layoutPosition"))
          options.layout_position true
      ∷ append_body sdk (codes "}")
      ∷ [])

  -- The end of both onboarding functions: run the request and read its response.
  unfoldable pub finish_onboarding : Run (Context I W) Bool
  finish_onboarding = do
    succeeded ← prv_execute_http_session sdk
    if succeeded
        then (do
          parsed ← prv_thing_if_parse_onboarding_response sdk
          if nonzero parsed then pure false else pure true)
        else pure false

  unfoldable pub prv_onboard_with_vendor_thing_id :
      Option Bytes → Option Bytes → OnboardOptions → Run (Context I W) Bool
  unfolding onboard_body_fails finish_onboarding
  prv_onboard_with_vendor_thing_id vendor_thing_id password options = do
    token_failed ← prv_kii_thing_if_get_anonymous_token
    if nonzero token_failed then pure false else do
      app_id ← gets (λ c. c.kii.app_id)
      path ← prv_set_onboard_resource_path sdk.noassert app_id 64
      elim path [
        | none ↦ pure false
        | some resource_path ↦ do
          failed ← call (
              sdk.kii_api_call_start (codes "POST") resource_path
                (some content_type_vendor_thing_id) true)
          if nonzero failed then (do set_error insufficient_buffer; pure false) else do
            overflowed ← onboard_body_fails (codes "vendorThingID") vendor_thing_id password options
            if overflowed then (do set_error insufficient_buffer; pure false) else finish_onboarding
      ]

  -- Here a failed kii_api_call_start is logged and does not end the function, and a body that
  -- overflows sets no error.
  unfoldable pub prv_onboard_with_thing_id :
      Option Bytes → Option Bytes → OnboardOptions → Run (Context I W) Bool
  unfolding onboard_body_fails finish_onboarding
  prv_onboard_with_thing_id thing_id password options = do
    token_failed ← prv_kii_thing_if_get_anonymous_token
    if nonzero token_failed then pure false else do
      app_id ← gets (λ c. c.kii.app_id)
      path ← prv_set_onboard_resource_path sdk.noassert app_id 64
      elim path [
        | none ↦ pure false
        | some resource_path ↦ do
          call (
              sdk.kii_api_call_start (codes "POST") resource_path (some content_type_thing_id) true)
          overflowed ← onboard_body_fails (codes "thingID") thing_id password options
          if overflowed then pure false else finish_onboarding
      ]

  -- `none` is KII_FALSE, and the author is left as it is; else the new contents.
  unfoldable pub prv_set_author : Bytes → Bytes → Option Author
  prv_set_author thing_id access_token =
      if leb sdk.author_id_size (length thing_id)
      then none
      else (if leb sdk.access_token_size (length access_token)
          then none
          else some (record { author_id = thing_id; access_token = access_token }))

  -- prv_set_author on an author of the instance.
  abbrev pub store_author :
      (Author → ThingIf I W → ThingIf I W) → Bytes → Bytes → Run (Host I W) Bool
  store_author put thing_id access_token h = elim (prv_set_author thing_id access_token) [
    | none ↦ done false h
    | some a ↦ done true (record h { thing = put a h.thing })
  ]

  abbrev pub to_state_updater : Author → ThingIf I W → ThingIf I W
  to_state_updater a t = record t { state_updater = record t.state_updater { author = a } }

  abbrev pub to_command_handler : Author → ThingIf I W → ThingIf I W
  to_command_handler a t = record t { command_handler = record t.command_handler { author = a } }

  -- `if (error != NULL) { error->code = KII_THING_IF_ERROR_INVALID_STATE; } return KII_FALSE;`
  abbrev pub refuse_state : Run (Host I W) Bool
  refuse_state h =
      done false (record h { error = on_error (λ e. record e { code = invalid_state }) h.error })

  abbrev pub set_state : ThingState → Run (Host I W) (Unit {0})
  set_state state = update_thing (λ t. record t { state = state })

  -- The body that both public functions share: refuse if started; onboard with the command
  -- handler; copy its author to the state updater; set the state.
  onboard_with : Run (Context I W) Bool → ThingState → Run (Host I W) Bool
  onboard_with onboard started = refuse_state
  onboard_with onboard state = do
    succeeded ← on_command_handler onboard
    if succeeded
        then (do
          author ← gets (λ h. h.thing.command_handler.author)
          stored ← store_author to_state_updater author.author_id author.access_token
          if stored then (do set_state onboarded; pure true) else pure false)
        else pure false

  unfoldable pub onboard_with_vendor_thing_id :
      Option Bytes → Option Bytes → OnboardOptions → Run (Host I W) Bool
  unfolding onboard_with
  onboard_with_vendor_thing_id vendor_thing_id password options h =
      onboard_with (prv_onboard_with_vendor_thing_id vendor_thing_id password options) h.thing.state
        h

  unfoldable pub onboard_with_thing_id :
      Option Bytes → Option Bytes → OnboardOptions → Run (Host I W) Bool
  unfolding onboard_with
  onboard_with_thing_id thing_id password options h =
      onboard_with (prv_onboard_with_thing_id thing_id password options) h.thing.state h

  module _ (self : Address) (app_id app_key app_host : Option Bytes) (thing_id access_token : Bytes)
      (command_handler_resource : Option (CommandHandlerResource I W))
      (state_updater_resource : Option (StateUpdaterResource I W)) (system_cb : SystemCb W)
      (resource_cb : Address) where
    unfoldable pub init_kii_thing_if_with_onboarded_thing : Run (Host I W) Bool
    init_kii_thing_if_with_onboarded_thing = do
      succeeded ←
          prv_init_kii_thing_if sdk self app_id app_key app_host command_handler_resource
            state_updater_resource system_cb resource_cb
      if succeeded
          then (do
            stored ← store_author to_command_handler thing_id access_token
            if stored
                then (do
                  stored' ← store_author to_state_updater thing_id access_token
                  if stored' then (do set_state onboarded; pure true) else pure false)
                else pure false)
          else pure false
