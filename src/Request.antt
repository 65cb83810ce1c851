-- ===== src/Request.antt =====
-- The helpers of kii_thing_if.c that build a request: prv_kii_api_call_start, the
-- prv_append_key_value family and prv_writer, and the conditions over APPEND_BODY.
pub mod Writes
pub mod Members
pub mod Objects
use thing_if_thing_sdk.Prelude.{
  Bool, true, false, Bytes, codes, length, ℤ, pos, minus_one, nonzero, List, [], ◌∷◌, Option, none,
  some, if◌then◌else◌,
}
use thing_if_thing_sdk.Flow.{Run, pure, ◌>>=◌, ◌>>◌, any_fails}
use thing_if_thing_sdk.Kii.{Sdk}
use thing_if_thing_sdk.Context.{Context, call, set_error, insufficient_buffer}

module _ {I W : Type 0} (sdk : Sdk I W) where
  -- APPEND_BODY, APPEND_BODY_CONST
  unfoldable pub append_body : Bytes → Run (Context I W) ℤ
  append_body str = call (sdk.kii_api_call_append_body str (length str))

  unfoldable pub prv_kii_api_call_start : Bytes → Bytes → Option Bytes → Bool → Run (Context I W) ℤ
  prv_kii_api_call_start http_method resource_path content_type set_authentication_header = do
    retval ←
        call
          (sdk.kii_api_call_start http_method resource_path content_type set_authentication_header)
    if nonzero retval then set_error insufficient_buffer >> pure retval else pure retval

  abbrev write_separator : Bool → Run (Context I W) Bool
  write_separator true = any_fails (append_body (codes ",") ∷ [])
  write_separator false = pure false

  abbrev write_value : Bool → Bytes → Run (Context I W) Bool
  write_value true value =
      any_fails (append_body (codes "\"") ∷ append_body value ∷ append_body (codes "\"") ∷ [])
  write_value false value = any_fails (append_body value ∷ [])

  -- A NULL key or value is `none`.
  unfoldable pub prv_append_key_value :
      Option Bytes → Option Bytes → Bool → Bool → Run (Context I W) ℤ
  prv_append_key_value none value is_successor is_string = pure minus_one
  prv_append_key_value (some key) none is_successor is_string = pure minus_one
  prv_append_key_value (some key) (some value) is_successor is_string = do
    separator_failed ← write_separator is_successor
    if separator_failed then pure minus_one else do
      key_failed ←
          any_fails (append_body (codes "\"") ∷ append_body key ∷ append_body (codes "\":") ∷ [])
      if key_failed then pure minus_one else do
        value_failed ← write_value is_string value
        if value_failed then pure minus_one else pure (pos 0)

  unfoldable pub prv_append_key_value_string :
      Option Bytes → Option Bytes → Bool → Run (Context I W) ℤ
  prv_append_key_value_string key value is_successor =
      prv_append_key_value key value is_successor true

  unfoldable pub prv_append_key_value_string_optional :
      Option Bytes → Option Bytes → Bool → Run (Context I W) ℤ
  prv_append_key_value_string_optional none value is_successor = pure (pos 0)
  prv_append_key_value_string_optional (some key) none is_successor = pure (pos 0)
  prv_append_key_value_string_optional (some key) (some value) is_successor =
      prv_append_key_value (some key) (some value) is_successor true

  unfoldable pub prv_append_key_value_object_optional :
      Option Bytes → Option Bytes → Bool → Run (Context I W) ℤ
  prv_append_key_value_object_optional none value is_successor = pure (pos 0)
  prv_append_key_value_object_optional (some key) none is_successor = pure (pos 0)
  prv_append_key_value_object_optional (some key) (some value) is_successor =
      prv_append_key_value (some key) (some value) is_successor false

  unfoldable pub prv_append_key_value_bool : Option Bytes → Bool → Bool → Run (Context I W) ℤ
  prv_append_key_value_bool key value is_successor =
      prv_append_key_value key (some (if value then codes "true" else codes "false")) is_successor
        false

  -- The writer that the state handlers are given.
  unfoldable pub prv_writer : Bytes → Run (Context I W) Bool
  prv_writer buff = do r ← append_body buff; if nonzero r then pure false else pure true
