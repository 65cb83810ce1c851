-- ===== src/Onboard/Bodies.antt =====
-- The bodies of the token request and of the onboarding request.
use thing_if_thing_sdk.Prelude.{
  true, false, Bytes, codes, List, [], ◌∷◌, ◌++◌, some, append_assoc, append-nil,
}
use thing_if_thing_sdk.Kii.{Sdk}
use thing_if_thing_sdk.Request.Writes.{
  Buffering, Tests, Tests-text, any_fails-Tests, first, nothing, append_body-Writes,
}
use thing_if_thing_sdk.Request.Members.{
  prv_append_key_value_string-Writes, prv_append_key_value_string_optional-Writes,
  prv_append_key_value_object_optional-Writes,
}
use thing_if_thing_sdk.Request.Objects.{
  Pair, json_object, option_pair, successors-append, successors-option_pair,
}
use thing_if_thing_sdk.Onboard.{OnboardOptions, onboard_body_fails, token_body_fails}

-- The members of an onboarding request: the ID and the password, then the options that are given.
abbrev pub onboard_members : Bytes → Bytes → Bytes → OnboardOptions → List Pair
onboard_members id_key id password options =
    (id_key, true, id)
    ∷ (codes "thingPassword", true, password)
    ∷ (option_pair (codes "thingType") true options.thing_type
        ++ (option_pair (codes "thingProperties") false options.thing_properties
            ++ (option_pair (codes "firmwareVersion") true options.firmware_version
                ++ option_pair (codes "layoutPosition") true options.layout_position)))

abbrev pub token_members : Bytes → Bytes → List Pair
token_members app_id app_key =
    (codes "grant_type", true, codes "client_credentials")
    ∷ (codes "client_id", true, app_id)
    ∷ (codes "client_secret", true, app_key)
    ∷ []

module _ {I W : Type 0} (sdk : Sdk I W) (buffering : Buffering sdk) where
  -- With an ID and a password, the onboarding condition appends one JSON object with exactly the
  -- ID, the password and the options that are not NULL, if the buffer takes it, and then is false;
  -- if the buffer does not take it, the condition is true.
  pub onboard_body_fails-Tests :
      (id_key id password : Bytes) (options : OnboardOptions)
      → Tests sdk buffering
          (json_object (onboard_members id_key id password options))
          (onboard_body_fails sdk id_key (some id) (some password) options)
  unfolding onboard_body_fails
  onboard_body_fails-Tests id_key id password options =
      Tests-text sdk buffering
        (simp (successors-append, successors-option_pair, append_assoc, append-nil))
        (any_fails-Tests sdk buffering (
          first (append_body-Writes sdk buffering (codes "{")) (
            first (prv_append_key_value_string-Writes sdk buffering false id_key id) (
              first (prv_append_key_value_string-Writes sdk buffering true _ password) (
                first
                  (prv_append_key_value_string_optional-Writes sdk buffering true _
                    options.thing_type)
                  (first
                    (prv_append_key_value_object_optional-Writes sdk buffering true _
                      options.thing_properties)
                    (first
                      (prv_append_key_value_string_optional-Writes sdk buffering true _
                        options.firmware_version)
                      (first
                        (prv_append_key_value_string_optional-Writes sdk buffering true _
                          options.layout_position)
                        (first (append_body-Writes sdk buffering (codes "}")) nothing)))))))))

  -- The token condition appends the JSON object of the client credentials in the same way.
  pub token_body_fails-Tests :
      (app_id app_key : Bytes)
      → Tests sdk buffering
          (json_object (token_members app_id app_key))
          (token_body_fails sdk app_id app_key)
  unfolding token_body_fails
  token_body_fails-Tests app_id app_key =
      Tests-text sdk buffering (simp (append_assoc, append-nil)) (
        any_fails-Tests sdk buffering (
          first (append_body-Writes sdk buffering (codes "{")) (
            first (prv_append_key_value_string-Writes sdk buffering false _ _) (
              first (prv_append_key_value_string-Writes sdk buffering true _ app_id) (
                first (prv_append_key_value_string-Writes sdk buffering true _ app_key)
                  (first (append_body-Writes sdk buffering (codes "}")) nothing))))))

  -- The conditions over the bodies of the two requests of an onboarding: each appends exactly one
  -- text, the members of the client credentials, or of the ID, the password and the options that are
  -- not NULL, in braces, if the buffer takes it, and then is false; if the buffer does not take it, the
  -- condition is true. Strings are put in quotes unescaped, and the thing's properties are put in as
  -- they are: an empty one leaves its key without a value.
  pub bodies-Tests :
      (app_id app_key id_key id password : Bytes) (options : OnboardOptions)
      → Tests sdk buffering
          (json_object (token_members app_id app_key))
          (token_body_fails sdk app_id app_key)
        × Tests sdk buffering
            (json_object (onboard_members id_key id password options))
            (onboard_body_fails sdk id_key (some id) (some password) options)
  bodies-Tests app_id app_key id_key id password options =
      (token_body_fails-Tests app_id app_key, onboard_body_fails-Tests id_key id password options)
