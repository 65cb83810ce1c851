-- ===== src/Attributes/Replies.antt =====
-- What the functions over the firmware version and the thing type answer.
use thing_if_thing_sdk.Prelude.{false, Bytes, ℕ, Option, ◌≡◌, ◌≢◌, arith}
use thing_if_thing_sdk.Flow.{done}
use thing_if_thing_sdk.Kii.{Sdk}
use thing_if_thing_sdk.Context.{on_error, invalid_state}
use thing_if_thing_sdk.Thing.{Host, onboarded}
use thing_if_thing_sdk.Attributes.{
  get_firmware_version, update_firmware_version, get_thing_type, update_thing_type,
}

-- The host with KII_THING_IF_ERROR_INVALID_STATE in the caller's error.
abbrev pub refused : {I W : Type 0} → Host I W → Host I W
refused h = record h { error = on_error (λ e. record e { code = invalid_state }) h.error }

module _ {I W : Type 0} (sdk : Sdk I W) (h : Host I W)
    (not_onboarded : h.thing.state ≢ onboarded) where
  -- Outside the state ONBOARDED all four functions return KII_FALSE and set only the error code
  -- INVALID_STATE: no request is started, and the caller's array keeps its text.
  pub attributes_need_onboarding :
      (text : Bytes) (size : ℕ) (value : Option Bytes)
      → (get_firmware_version sdk text size h ≡ done (false, text) (refused h))
        × (update_firmware_version sdk value h ≡ done false (refused h))
        × (get_thing_type sdk text size h ≡ done (false, text) (refused h))
        × (update_thing_type sdk value h ≡ done false (refused h))
  unfolding get_firmware_version update_firmware_version get_thing_type update_thing_type
  attributes_need_onboarding text size value =
      (ground arith, ground arith, ground arith, ground arith)
