-- ===== src/Onboard/Failures.antt =====
-- The two ways to onboard where the onboarding request fails.
use thing_if_thing_sdk.Prelude.{
  Bool, true, false, Bytes, codes, length, ◌<◌, ◌++◌, ℤ, pos, nonzero, Option, some, ◌≡◌, ◌∙◌,
  arith, if◌then◌else◌,
}
use thing_if_thing_sdk.Flow.{done, Run, pure, bind_done, ◌>>=◌, ◌>>◌}
use thing_if_thing_sdk.Kii.{Kii, Sdk}
use thing_if_thing_sdk.Context.{Context, on_error, insufficient_buffer, set_error}
use thing_if_thing_sdk.ResourcePath.{
  thing_if_app_path, onboarding_path, prv_set_onboard_resource_path,
}
use thing_if_thing_sdk.ResourcePath.Bounds.{Builds-fits, prv_set_onboard_resource_path-Builds}
use thing_if_thing_sdk.Onboard.{
  OnboardOptions, content_type_vendor_thing_id, content_type_thing_id, onboard_body_fails,
  finish_onboarding, prv_kii_thing_if_get_anonymous_token, prv_onboard_with_vendor_thing_id,
  prv_onboard_with_thing_id,
}

abbrev pub with_error : {I W : Type 0} → Context I W → Context I W
with_error t = record t { error = on_error (λ e. record e { code = insufficient_buffer }) t.error }

module _ {I W : Type 0} (sdk : Sdk I W) where
  module _ (c1 : Context I W) where
    abbrev pub onboarding : Bytes
    onboarding = thing_if_app_path ++ (c1.kii.app_id ++ onboarding_path)

    -- The answer to the start of the onboarding request, and the context after it.
    abbrev pub start_with : Bytes → ℤ × Kii I W × W
    start_with content_type =
        sdk.kii_api_call_start (codes "POST") onboarding (some content_type) true c1.kii c1.world

    abbrev pub after_start : Bytes → Context I W
    after_start content_type =
        let (r, k, w) = start_with content_type in record c1 { kii = k; world = w }

  module _ (id password : Option Bytes) (options : OnboardOptions) where
    -- Both functions from the start of the request on; `failed` is whether it failed.
    abbrev pub rest_by_thing_id : Run (Context I W) Bool
    rest_by_thing_id = do
      overflowed ← onboard_body_fails sdk (codes "thingID") id password options
      if overflowed then pure false else finish_onboarding sdk

    abbrev pub rest_by_vendor_id : Bool → Run (Context I W) Bool
    rest_by_vendor_id failed = if failed then (do set_error insufficient_buffer; pure false) else do
      overflowed ← onboard_body_fails sdk (codes "vendorThingID") id password options
      if overflowed then (do set_error insufficient_buffer; pure false) else finish_onboarding sdk

module _ {I W : Type 0} (sdk : Sdk I W) (id password : Option Bytes) (options : OnboardOptions)
    (c c1 : Context I W) (token : prv_kii_thing_if_get_anonymous_token sdk c ≡ done (pos 0) c1)
    (fits : length (onboarding sdk c1) < 64) where
  path_built :
      prv_set_onboard_resource_path sdk.noassert c1.kii.app_id 64 c1
      ≡ done (some (onboarding sdk c1)) c1
  path_built =
      Builds-fits sdk.noassert 64 (onboarding sdk c1)
        (prv_set_onboard_resource_path-Builds sdk.noassert c1.kii.app_id 64 (omega arith) c1) fits

  pub by_thing_id :
      prv_onboard_with_thing_id sdk id password options c
      ≡ rest_by_thing_id sdk id password options (after_start sdk c1 content_type_thing_id)
  unfolding prv_onboard_with_thing_id
  by_thing_id =
      bind_done (prv_kii_thing_if_get_anonymous_token sdk) _ token
      ∙ bind_done (prv_set_onboard_resource_path sdk.noassert c1.kii.app_id 64) _ path_built

  pub by_vendor_id :
      prv_onboard_with_vendor_thing_id sdk id password options c
      ≡ rest_by_vendor_id sdk id password options
          (nonzero (start_with sdk c1 content_type_vendor_thing_id).0)
          (after_start sdk c1 content_type_vendor_thing_id)
  unfolding prv_onboard_with_vendor_thing_id
  by_vendor_id =
      bind_done (prv_kii_thing_if_get_anonymous_token sdk) _ token
      ∙ bind_done (prv_set_onboard_resource_path sdk.noassert c1.kii.app_id 64) _ path_built

  -- Where the onboarding request cannot be started, the function for vendor thing IDs returns
  -- KII_FALSE with INSUFFICIENT_BUFFER. The function for thing IDs goes on as if it had started.
  pub start_failure :
      nonzero (start_with sdk c1 content_type_vendor_thing_id).0 ≡ true
      → (prv_onboard_with_vendor_thing_id sdk id password options c
          ≡ done false (with_error (after_start sdk c1 content_type_vendor_thing_id)))
        × (prv_onboard_with_thing_id sdk id password options c
            ≡ rest_by_thing_id sdk id password options (after_start sdk c1 content_type_thing_id))
  start_failure failed = (by_vendor_id ∙ (rw failed), by_thing_id)

  -- Where the body does not fit, both return KII_FALSE. The function for vendor thing IDs sets
  -- INSUFFICIENT_BUFFER; the function for thing IDs leaves the error as it was.
  pub body_overflow :
      {t u : Context I W}
      → nonzero (start_with sdk c1 content_type_vendor_thing_id).0 ≡ false
      → onboard_body_fails sdk
          (codes "vendorThingID")
          id
          password
          options
          (after_start sdk c1 content_type_vendor_thing_id)
        ≡ done true t
      → onboard_body_fails sdk
          (codes "thingID")
          id
          password
          options
          (after_start sdk c1 content_type_thing_id)
        ≡ done true u
      → (prv_onboard_with_vendor_thing_id sdk id password options c ≡ done false (with_error t))
        × (prv_onboard_with_thing_id sdk id password options c ≡ done false u)
  body_overflow started e f = (
    by_vendor_id
        ∙ (rw started
            (bind_done (onboard_body_fails sdk (codes "vendorThingID") id password options) _ e)),
    by_thing_id ∙ bind_done (onboard_body_fails sdk (codes "thingID") id password options) _ f,
  )
