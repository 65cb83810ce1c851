-- ===== src/Attributes/Sends.antt =====
-- What the functions over the firmware version and the thing type send and answer once the thing is
-- onboarded.
use thing_if_thing_sdk.Prelude.{
  Bool, true, false, Bytes, codes, length, ◌<◌, ◌≤◌, ◌++◌, ℤ, nonzero, [], ◌∷◌, some, ◌≡◌, refl,
  ◌∙◌, arith, append_assoc, append-nil,
}
use thing_if_thing_sdk.Flow.{gets, Outcome, done, Run, bind_done, ◌>>=◌, any_fails}
use thing_if_thing_sdk.Kii.{Kii, Sdk}
use thing_if_thing_sdk.Context.{Context}
use thing_if_thing_sdk.Request.{append_body, prv_append_key_value_string, prv_kii_api_call_start}
use thing_if_thing_sdk.Request.Writes.{
  Buffering, Tests, Appended, at, Tests-text, any_fails-Tests, first, nothing, append_body-Writes,
}
use thing_if_thing_sdk.Request.Members.{prv_append_key_value_string-Writes}
use thing_if_thing_sdk.Request.Objects.{json_object}
use thing_if_thing_sdk.ResourcePath.{
  thing_if_app_path, things_part, firmware_version_part, thing_type_part,
  prv_set_firmware_version_resource_path, prv_set_thing_type_resource_path,
}
use thing_if_thing_sdk.ResourcePath.Bounds.{
  Builds-fits, prv_set_firmware_version_resource_path-Builds,
  prv_set_thing_type_resource_path-Builds,
}
use thing_if_thing_sdk.Session.{prv_execute_http_session}
use thing_if_thing_sdk.Thing.{ThingState, Host, onboarded, command_context, on_command_handler}
use thing_if_thing_sdk.Attributes.{
  when_onboarded, content_update_firmware_version, content_update_thing_type, update_attribute,
  update_firmware_version, update_thing_type,
}

-- The object with one string member.
abbrev pub attribute_body : Bytes → Bytes → Bytes
attribute_body key value = json_object ((key, true, value) ∷ [])

-- The path of an attribute of the thing.
abbrev pub attribute_path : {I W : Type 0} → Bytes → Context I W → Bytes
attribute_path part c =
    thing_if_app_path ++ (c.kii.app_id ++ (things_part ++ (c.kii.author.author_id ++ part)))

module _ {I W : Type 0} (sdk : Sdk I W) (c : Context I W) where
  -- The answer to the start of a PUT, and the context after it.
  abbrev pub put_start : Bytes → Bytes → ℤ × Kii I W × W
  put_start path content_type =
      sdk.kii_api_call_start (codes "PUT") path (some content_type) true c.kii c.world

  abbrev pub put_started : Bytes → Bytes → Context I W
  put_started path content_type =
      let (r, k, w) = put_start path content_type in record c { kii = k; world = w }

module _ {I W : Type 0} (sdk : Sdk I W) (buffering : Buffering sdk) where
  body-Tests :
      (key value : Bytes)
      → Tests sdk buffering (attribute_body key value) (
          any_fails (
            append_body sdk (codes "{")
            ∷ prv_append_key_value_string sdk (some key) (some value) false
            ∷ append_body sdk (codes "}")
            ∷ []))
  body-Tests key value = Tests-text sdk buffering (simp (append_assoc, append-nil)) (
      any_fails-Tests sdk buffering (
        first (append_body-Writes sdk buffering (codes "{")) (
          first (prv_append_key_value_string-Writes sdk buffering false key value)
            (first (append_body-Writes sdk buffering (codes "}")) nothing))))

  module _ (c : Context I W) where
    start_lem :
        (path content_type : Bytes)
        → nonzero (put_start sdk c path content_type).0 ≡ false
        → prv_kii_api_call_start sdk (codes "PUT") path (some content_type) true c
          ≡ done (put_start sdk c path content_type).0 (put_started sdk c path content_type)
    unfolding prv_kii_api_call_start
    start_lem path content_type h = rw h refl

    update_attribute-sends :
        (path content_type key value : Bytes)
        → nonzero (put_start sdk c path content_type).0 ≡ false
        → length (attribute_body key value)
          ≤ buffering.room (put_started sdk c path content_type).kii.internals
        → (j : I) × (update_attribute sdk (some path) content_type key (some value) c
            ≡ prv_execute_http_session sdk (at (put_started sdk c path content_type) j))
          × Appended sdk buffering
              (attribute_body key value)
              (put_started sdk c path content_type).kii.internals
              j
    unfolding update_attribute
    update_attribute-sends path content_type key value h fits =
        let (j, e, a) =
          (body-Tests key value).when_fits (put_started sdk c path content_type) fits in
        (
          j,
          bind_done (prv_kii_api_call_start sdk (codes "PUT") path (some content_type) true) _
                (start_lem path content_type h)
              ∙ rw h (
                  bind_done
                    (any_fails (
                      append_body sdk (codes "{")
                      ∷ prv_append_key_value_string sdk (some key) (some value) false
                      ∷ append_body sdk (codes "}")
                      ∷ []))
                    _ e),
          a,
        )

pub when_onboarded_lem :
    {I W A : Type 0} (sdk : Sdk I W) (h : Host I W) (refused : A) (m : Run (Context I W) A)
    (s : ThingState)
    → s ≡ onboarded
    → when_onboarded sdk refused m s h ≡ on_command_handler m h
when_onboarded_lem sdk h refused m s e = rw e refl

pub on_command_handler-ap :
    {I W A : Type 0} (h : Host I W) (m n : Run (Context I W) A)
    → m (command_context h) ≡ n (command_context h)
    → on_command_handler m h ≡ on_command_handler n h
on_command_handler-ap h m n e = rw (e, on_command_handler) refl

module _ {I W : Type 0} (sdk : Sdk I W) (h : Host I W) where
  abbrev pub version_started : Context I W
  version_started =
      let c = command_context h in
      put_started sdk c (attribute_path firmware_version_part c) content_update_firmware_version

  abbrev pub type_started : Context I W
  type_started =
      let c = command_context h in
      put_started sdk c (attribute_path thing_type_part c) content_update_thing_type

  -- An update function has started its request, which became `started`; it runs it with exactly
  -- `body`, and answers as the session does.
  abbrev pub Puts : Buffering sdk → Bytes → Context I W → Outcome (Host I W) Bool → Type 0
  Puts buffering body started r =
      (j : I) × (r ≡ on_command_handler (λ _. prv_execute_http_session sdk (at started j)) h)
      × Appended sdk buffering body started.kii.internals j

  -- What both functions do in the state ONBOARDED.
  abbrev version_run : Bytes → Run (Context I W) Bool
  version_run value = do
    app_id ← gets (λ c. c.kii.app_id)
    author ← gets (λ c. c.kii.author)
    path ← prv_set_firmware_version_resource_path sdk.noassert app_id author.author_id 128
    update_attribute sdk path content_update_firmware_version (codes "firmwareVersion") (some value)

  abbrev type_run : Bytes → Run (Context I W) Bool
  type_run value = do
    app_id ← gets (λ c. c.kii.app_id)
    author ← gets (λ c. c.kii.author)
    path ← prv_set_thing_type_resource_path sdk.noassert app_id author.author_id 128
    update_attribute sdk path content_update_thing_type (codes "thingType") (some value)

module _ {I W : Type 0} (sdk : Sdk I W) (buffering : Buffering sdk) (h : Host I W)
    (in_state : h.thing.state ≡ onboarded) (value : Bytes) where
  -- In the state ONBOARDED, where the path and the body fit and the request starts,
  -- update_firmware_version puts exactly the object with the firmware version to the path of the
  -- thing's firmware version, and returns what the session returns.
  pub update_firmware_version-sends :
      let c = command_context h in
      let body = attribute_body (codes "firmwareVersion") value in
      length (attribute_path firmware_version_part c) < 128
      → nonzero
          (put_start sdk c
            (attribute_path firmware_version_part c)
            content_update_firmware_version).0
        ≡ false
      → length body ≤ buffering.room (version_started sdk h).kii.internals
      → Puts sdk h buffering body
          (version_started sdk h)
          (update_firmware_version sdk (some value) h)
  unfolding update_firmware_version
  update_firmware_version-sends fits started body =
      let c = command_context h in
      let (j, e, a) =
        update_attribute-sends sdk buffering c (attribute_path firmware_version_part c)
          content_update_firmware_version (codes "firmwareVersion") value started body in
      let built =
        Builds-fits sdk.noassert 128 (attribute_path firmware_version_part c)
          (prv_set_firmware_version_resource_path-Builds sdk.noassert c.kii.app_id 128
            c.kii.author.author_id (omega arith) c)
          fits in
      (
        j,
        when_onboarded_lem sdk h false (version_run sdk h value) h.thing.state in_state
            ∙ on_command_handler-ap h (version_run sdk h value)
                (λ _. prv_execute_http_session sdk (at (version_started sdk h) j))
                (bind_done
                    (prv_set_firmware_version_resource_path sdk.noassert c.kii.app_id
                      c.kii.author.author_id 128)
                    (λ p.
                      update_attribute sdk p content_update_firmware_version
                        (codes "firmwareVersion") (some value))
                    built
                  ∙ e),
        a,
      )

  -- In the state ONBOARDED, where the path and the body fit and the request starts,
  -- update_thing_type puts exactly the object with the thing type to the path of the thing's type,
  -- and returns what the session returns.
  pub update_thing_type-sends :
      let c = command_context h in
      let body = attribute_body (codes "thingType") value in
      length (attribute_path thing_type_part c) < 128
      → nonzero (put_start sdk c (attribute_path thing_type_part c) content_update_thing_type).0
        ≡ false
      → length body ≤ buffering.room (type_started sdk h).kii.internals
      → Puts sdk h buffering body (type_started sdk h) (update_thing_type sdk (some value) h)
  unfolding update_thing_type
  update_thing_type-sends fits started body =
      let c = command_context h in
      let (j, e, a) =
        update_attribute-sends sdk buffering c (attribute_path thing_type_part c)
          content_update_thing_type (codes "thingType") value started body in
      let built =
        Builds-fits sdk.noassert 128 (attribute_path thing_type_part c)
          (prv_set_thing_type_resource_path-Builds sdk.noassert c.kii.app_id 128
            c.kii.author.author_id (omega arith) c)
          fits in
      (
        j,
        when_onboarded_lem sdk h false (type_run sdk h value) h.thing.state in_state
            ∙ on_command_handler-ap h (type_run sdk h value)
                (λ _. prv_execute_http_session sdk (at (type_started sdk h) j))
                (bind_done
                    (prv_set_thing_type_resource_path sdk.noassert c.kii.app_id
                      c.kii.author.author_id 128)
                    (λ p.
                      update_attribute sdk p content_update_thing_type (codes "thingType")
                        (some value))
                    built
                  ∙ e),
        a,
      )

  -- In the state ONBOARDED, where the paths and the bodies fit and the requests start, the two update
  -- functions put exactly the object with the firmware version, or with the thing type, to the path of
  -- that attribute of the thing, and return what the session returns.
  pub updates-send :
      let c = command_context h in
      let version_body = attribute_body (codes "firmwareVersion") value in
      let type_body = attribute_body (codes "thingType") value in
      length (attribute_path firmware_version_part c) < 128
      → nonzero
          (put_start sdk c
            (attribute_path firmware_version_part c)
            content_update_firmware_version).0
        ≡ false
      → length version_body ≤ buffering.room (version_started sdk h).kii.internals
      → length (attribute_path thing_type_part c) < 128
      → nonzero (put_start sdk c (attribute_path thing_type_part c) content_update_thing_type).0
        ≡ false
      → length type_body ≤ buffering.room (type_started sdk h).kii.internals
      → Puts sdk h buffering version_body
          (version_started sdk h)
          (update_firmware_version sdk (some value) h)
        × Puts sdk h buffering type_body (type_started sdk h) (update_thing_type sdk (some value) h)
  updates-send fits started body fits' started' body' = (
    update_firmware_version-sends fits started body,
    update_thing_type-sends fits' started' body',
  )
