-- ===== src/Request/Members.antt =====
-- The JSON members that the prv_append_key_value family writes.
use thing_if_thing_sdk.Prelude.{
  Bool, true, false, Bytes, codes, [], ◌∷◌, ◌++◌, Option, none, some, if◌then◌else◌, append-nil,
  append_assoc,
}
use thing_if_thing_sdk.Flow.{any_fails}
use thing_if_thing_sdk.Kii.{Sdk}
use thing_if_thing_sdk.Request.{
  append_body, prv_append_key_value, prv_append_key_value_string,
  prv_append_key_value_string_optional, prv_append_key_value_object_optional,
  prv_append_key_value_bool, write_separator, write_value,
}
use thing_if_thing_sdk.Request.Writes.{
  Buffering, Writes, Tests, append_body-Writes, Writes-text, Tests-text, Tests-nil, any_fails-Tests,
  first, nothing, Writes-zero, Writes-guarded,
}

-- A JSON string, object member and the comma in front of all members but the first. Texts are
-- written unescaped, as the source does.
abbrev pub json_string : Bytes → Bytes
json_string v = codes "\"" ++ (v ++ codes "\"")

abbrev pub json_value : Bool → Bytes → Bytes
json_value true v = json_string v
json_value false v = v

abbrev pub separator : Bool → Bytes
separator true = codes ","
separator false = []

abbrev pub member : Bool → Bool → Bytes → Bytes → Bytes
member is_successor is_string key value =
    separator is_successor ++ (json_string key ++ (codes ":" ++ json_value is_string value))

abbrev pub optional_member : Bool → Bool → Bytes → Option Bytes → Bytes
optional_member is_successor is_string key none = []
optional_member is_successor is_string key (some value) = member is_successor is_string key value

module _ {I W : Type 0} (sdk : Sdk I W) (buffering : Buffering sdk) where
  one-Tests : (s : Bytes) → Tests sdk buffering s (any_fails (append_body sdk s ∷ []))
  one-Tests s =
      Tests-text sdk buffering (append-nil s)
        (any_fails-Tests sdk buffering (first (append_body-Writes sdk buffering s) nothing))

  three-Tests :
      (s t u : Bytes)
      → Tests sdk buffering
          (s ++ (t ++ (u ++ [])))
          (any_fails (append_body sdk s ∷ append_body sdk t ∷ append_body sdk u ∷ []))
  three-Tests s t u = any_fails-Tests sdk buffering (
      first (append_body-Writes sdk buffering s) (
        first (append_body-Writes sdk buffering t)
          (first (append_body-Writes sdk buffering u) nothing)))

  write_separator-Tests : (b : Bool) → Tests sdk buffering (separator b) (write_separator sdk b)
  write_separator-Tests true = one-Tests (codes ",")
  write_separator-Tests false = Tests-nil sdk buffering

  write_value-Tests :
      (b : Bool) (v : Bytes) → Tests sdk buffering (json_value b v) (write_value sdk b v)
  write_value-Tests true v = three-Tests (codes "\"") v (codes "\"")
  write_value-Tests false v = one-Tests v

  -- With a key and a value, prv_append_key_value returns 0 and appends exactly the member to the
  -- request body where it fits; where it does not fit, it returns another code.
  pub prv_append_key_value-Writes :
      (is_successor is_string : Bool) (key value : Bytes)
      → Writes sdk buffering
          (member is_successor is_string key value)
          (prv_append_key_value sdk (some key) (some value) is_successor is_string)
  unfolding prv_append_key_value
  prv_append_key_value-Writes is_successor is_string key value =
      Writes-text sdk buffering (simp (append_assoc, append-nil)) (
        Writes-guarded sdk buffering (separator is_successor) _ _ _
          (write_separator-Tests is_successor)
          (Writes-guarded sdk buffering _ _ _ _ (three-Tests (codes "\"") key (codes "\":")) (
            Writes-guarded sdk buffering _ [] _ _ (write_value-Tests is_string value)
              (Writes-zero sdk buffering))))

  pub prv_append_key_value_string-Writes :
      (is_successor : Bool) (key value : Bytes)
      → Writes sdk buffering
          (member is_successor true key value)
          (prv_append_key_value_string sdk (some key) (some value) is_successor)
  unfolding prv_append_key_value_string
  prv_append_key_value_string-Writes b key value = prv_append_key_value-Writes b true key value

  pub prv_append_key_value_string_optional-Writes :
      (is_successor : Bool) (key : Bytes) (value : Option Bytes)
      → Writes sdk buffering
          (optional_member is_successor true key value)
          (prv_append_key_value_string_optional sdk (some key) value is_successor)
  unfolding prv_append_key_value_string_optional
  prv_append_key_value_string_optional-Writes b key none = Writes-zero sdk buffering
  prv_append_key_value_string_optional-Writes b key (some value) =
      prv_append_key_value-Writes b true key value

  pub prv_append_key_value_object_optional-Writes :
      (is_successor : Bool) (key : Bytes) (value : Option Bytes)
      → Writes sdk buffering
          (optional_member is_successor false key value)
          (prv_append_key_value_object_optional sdk (some key) value is_successor)
  unfolding prv_append_key_value_object_optional
  prv_append_key_value_object_optional-Writes b key none = Writes-zero sdk buffering
  prv_append_key_value_object_optional-Writes b key (some value) =
      prv_append_key_value-Writes b false key value

  pub prv_append_key_value_bool-Writes :
      (is_successor : Bool) (key : Bytes) (value : Bool)
      → Writes sdk buffering
          (member is_successor false key (if value then codes "true" else codes "false"))
          (prv_append_key_value_bool sdk (some key) value is_successor)
  unfolding prv_append_key_value_bool
  prv_append_key_value_bool-Writes b key value = prv_append_key_value-Writes b false key _
