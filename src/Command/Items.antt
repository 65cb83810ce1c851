-- ===== src/Command/Items.antt =====
-- The items of a JSON array whose elements are objects with one member:
-- prv_kii_thing_if_get_key_and_value_from_json and get_key_and_value_at_index, in a build without
-- KII_JSON_FIXED_TOKEN_NUM.
pub mod Found
use thing_if_thing_sdk.Prelude.{
  Bool, true, false, Bytes, codes, length, get_elem?, ℕ, zero, suc, ◌+◌, ◌/◌, ◌%◌, ℤ, pos, negsuc,
  at_least, List, [], ◌∷◌, ◌++◌, Option, none, some, if◌then◌else◌, ltb,
}
use thing_if_thing_sdk.Flow.{Outcome, done, fault, Run, pure, ◌>>=◌, ◌>>◌}
use thing_if_thing_sdk.Kii.{
  Kii, Sdk, Token, TokenType, primitive, object, array, string, Field, field_object, field_success,
  ParseResult, success, partial_success, root_type_error, invalid_input,
}
use thing_if_thing_sdk.Context.{Context, sprintf_into}
use thing_if_thing_sdk.Session.{field_by_path, prv_kii_thing_if_json_read_object}
use thing_if_thing_sdk.Command.Memory.{slice, or_fault, distance}

-- The pointers and lengths that both functions hand out.
pub record Item : Type 0 where
  pub key : ℕ
  pub key_len : ℕ
  pub value : ℕ
  pub value_len : ℕ

-- prv_get_key_and_value_t, with what the out parameters hold on success.
pub data KeyValue : Type 0 where
  got : Item → KeyValue
  fail : KeyValue
  finish : KeyValue

-- %lu, on fuel for the digits.
abbrev pub digits_below : ℕ → ℕ → Bytes
digits_below zero n = []
digits_below (suc fuel) n =
    let high = digits_below fuel (n / 10) in
    if ltb n 10 then (48 + n) ∷ [] else high ++ ((48 + n % 10) ∷ [])

-- The 20 digits of a 64-bit number are enough.
unfoldable pub decimal : ℕ → Bytes
decimal n = digits_below 20 n

abbrev is_object : TokenType → Bool
is_object object = true
is_object primitive = false
is_object array = false
is_object string = false

abbrev is_string : TokenType → Bool
is_string string = true
is_string primitive = false
is_string object = false
is_string array = false

module _ {I W : Type 0} (sdk : Sdk I W) where
  -- The one field that get_key_and_value_at_index asks for.
  abbrev pub item_field : Bytes → Field
  item_field path = record (field_by_path sdk path field_object none 0) { result = field_success }

  -- What follows jsmn_parse: the kinds of the first two tokens, and the places of the second and
  -- the third. `none` is -1. The number of tokens that were parsed is not looked at.
  unfoldable pub key_and_value : ℕ → List Token → Run (Context I W) (Option Item)
  key_and_value json_string tokens = do
    t0 ← or_fault (get_elem? tokens 0)
    if is_object t0.type
        then (do
          t1 ← or_fault (get_elem? tokens 1)
          if is_string t1.type
              then (do
                t2 ← or_fault (get_elem? tokens 2)
                pure (
                    some (record {
                      key = json_string + t1.start;
                      key_len = distance t1.start t1.end;
                      value = json_string + t2.start;
                      value_len = distance t2.start t2.end;
                    })))
              else pure none)
        else pure none

  unfoldable pub jsmn : Bytes → Run (Context I W) ℤ
  jsmn json c =
      let (r, tokens) = sdk.jsmn_parse json (length json) c.kii.tokens in
      done r (record c { kii = record c.kii { tokens = tokens } })

  -- `json_string` is the offset of the object in the message.
  unfoldable pub prv_kii_thing_if_get_key_and_value_from_json :
      ℕ → ℕ → Run (Context I W) (Option Item)
  unfolding jsmn key_and_value
  prv_kii_thing_if_get_key_and_value_from_json json_string json_string_len = do
    json ← slice json_string json_string_len
    parse_result ← jsmn json
    if at_least 0 parse_result then (λ c. key_and_value json_string c.kii.tokens c) else pure none

  -- The switch over the result of the parser.
  unfoldable pub item_of : ℕ → ParseResult → List Field → Run (Context I W) KeyValue
  item_of array_str success [] = λ c. fault
  item_of array_str success (item ∷ fields) = do
    found ←
        prv_kii_thing_if_get_key_and_value_from_json (array_str + item.start)
          (distance item.start item.end)
    elim found [ none ↦ pure fail | some kv ↦ pure (got kv) ]
  item_of array_str partial_success fields = pure finish
  item_of array_str root_type_error fields = pure fail
  item_of array_str invalid_input fields = pure fail

  -- `array_str` is the offset of the array in the message.
  unfoldable pub get_key_and_value_at_index : ℕ → ℕ → ℕ → Run (Context I W) KeyValue
  unfolding item_of decimal
  get_key_and_value_at_index array_str array_len index = do
    index_str ← sprintf_into sdk.ulong_buf_size (codes "/[" ++ (decimal index ++ codes "]"))
    array_text ← slice array_str array_len
    (r, fields) ← prv_kii_thing_if_json_read_object sdk array_text (item_field index_str ∷ [])
    item_of array_str r fields
