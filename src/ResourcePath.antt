-- ===== src/ResourcePath.antt =====
-- The paths that kii_thing_if.c builds in arrays of fixed size: the guards of the
-- prv_set_*_resource_path functions, and of the OAuth path.
pub mod Bounds
use thing_if_thing_sdk.Prelude.{
  Bool, true, false, Bytes, codes, length, ℕ, ◌+◌, Option, none, some, ◌++◌, if◌then◌else◌, leb,
}
use thing_if_thing_sdk.Flow.{Run, pure, ◌>>=◌, ◌>>◌}
use thing_if_thing_sdk.Context.{to_size, assert_fails, sprintf_into}

abbrev pub app_path : Bytes
app_path = codes "api/apps/"

abbrev pub oauth_path : Bytes
oauth_path = codes "/oauth2/token"

abbrev pub thing_if_app_path : Bytes
thing_if_app_path = codes "thing-if/apps/"

abbrev pub onboarding_path : Bytes
onboarding_path = codes "/onboardings"

abbrev pub target_part : Bytes
target_part = codes "/targets/thing:"

abbrev pub command_part : Bytes
command_part = codes "/commands/"

abbrev pub results_part : Bytes
results_part = codes "/action-results"

abbrev pub states_part : Bytes
states_part = codes "/states"

abbrev pub things_part : Bytes
things_part = codes "/things/"

abbrev pub firmware_version_part : Bytes
firmware_version_part = codes "/firmware-version"

abbrev pub thing_type_part : Bytes
thing_type_part = codes "/thing-type"

-- The common end of the four functions: the guard, the assertion that reports it, and the sprintf.
-- `none` is KII_FALSE; `some` is KII_TRUE with the text that is now in `resource_path`.
abbrev pub set_path : {S : Type 0} → Bool → ℕ → ℕ → Bytes → Run S (Option Bytes)
set_path noassert path_length resource_path_len path =
    if leb resource_path_len path_length
    then (assert_fails noassert >> pure none)
    else (do p ← sprintf_into resource_path_len path; pure (some p))

module _ {S : Type 0} (noassert : Bool) where
  unfoldable pub prv_set_onboard_resource_path : Bytes → ℕ → Run S (Option Bytes)
  prv_set_onboard_resource_path app_id resource_path_len =
      set_path noassert
        (to_size (length thing_if_app_path + length app_id + length onboarding_path))
        resource_path_len (thing_if_app_path ++ (app_id ++ onboarding_path))

  unfoldable pub prv_set_state_resource_path : Bytes → Bytes → ℕ → Run S (Option Bytes)
  prv_set_state_resource_path app_id author_id resource_path_len =
      set_path noassert
        (to_size (
          length thing_if_app_path
          + length app_id
          + length target_part
          + length author_id
          + length states_part))
        resource_path_len
        (thing_if_app_path ++ (app_id ++ (target_part ++ (author_id ++ states_part))))

  unfoldable pub prv_set_firmware_version_resource_path : Bytes → Bytes → ℕ → Run S (Option Bytes)
  prv_set_firmware_version_resource_path app_id author_id resource_path_len =
      set_path noassert
        (to_size (
          length thing_if_app_path
          + length app_id
          + length things_part
          + length author_id
          + length firmware_version_part))
        resource_path_len
        (thing_if_app_path ++ (app_id ++ (things_part ++ (author_id ++ firmware_version_part))))

  unfoldable pub prv_set_thing_type_resource_path : Bytes → Bytes → ℕ → Run S (Option Bytes)
  prv_set_thing_type_resource_path app_id author_id resource_path_len =
      set_path noassert
        (to_size (
          length thing_if_app_path
          + length app_id
          + length things_part
          + length author_id
          + length thing_type_part))
        resource_path_len
        (thing_if_app_path ++ (app_id ++ (things_part ++ (author_id ++ thing_type_part))))
