-- ===== src/Command.antt =====
-- Commands that are pushed to the thing: handle_command, received_callback and
-- test_handle_command. All pointers into the message are offsets from its first byte.
pub mod Memory
pub mod Results
pub mod Actions
pub mod Aliases
pub mod Commas
pub mod Path
pub mod Sent
pub mod Whole
pub mod Overflow
pub mod Items
use thing_if_thing_sdk.Prelude.{
  Bool, true, false, not, ◌||◌, Bytes, codes, length, get_elem?, ℕ, zero, suc, ◌+◌, ◌-◌, ◌%◌, ℤ,
  nonzero, List, [], ◌∷◌, ◌++◌, Option, none, some, if◌then◌else◌, leb, ltb,
}
use thing_if_thing_sdk.Flow.{
  Outcome, done, aborted, fault, unfinished, Run, pure, gets, ◌>>=◌, ◌>>◌, any_fails,
}
use thing_if_thing_sdk.Kii.{
  Kii, Sdk, Field, FieldResult, field_success, copy_failed, type_unmatched, not_found, field_string,
  field_array, ParseResult, success, partial_success, root_type_error, invalid_input,
}
use thing_if_thing_sdk.Context.{Context, call, size_mod, to_size, sprintf_into}
use thing_if_thing_sdk.Request.{
  append_body, prv_append_key_value_bool, prv_append_key_value_string_optional,
}
use thing_if_thing_sdk.ResourcePath.{thing_if_app_path, target_part, command_part, results_part}
use thing_if_thing_sdk.Session.{field_by_path, prv_kii_thing_if_json_read_object}
use thing_if_thing_sdk.Thing.{ActionHandler, StateHandler, CustomPushHandler}
use thing_if_thing_sdk.Report.{prv_send_state}
use Memory.{byte_at, poke, slice, text_at, text_within, until_nul, distance}
use Items.{Item, KeyValue, fail, got, finish, get_key_and_value_at_index}

module _ {I W : Type 0} (sdk : Sdk I W) where
  -- The line that appends `error` to the results; the array is read only if the action failed.
  unfoldable pub append_error_message : Bool → Bytes → Run (Context I W) ℤ
  append_error_message true error =
      prv_append_key_value_string_optional sdk (some (codes "errorMessage")) none true
  append_error_message false error = elim (until_nul error) [
    | none ↦ λ c. fault
    | some text ↦
        prv_append_key_value_string_optional sdk (some (codes "errorMessage")) (some text) true
  ]

  -- The comma before a result; that it does not fit is only logged.
  unfoldable pub append_comma : ℕ → ℕ → Run (Context I W) (Unit {0})
  append_comma alias_index action_index =
      if ltb 0 alias_index || ltb 0 action_index
      then (append_body sdk (codes ",") >> pure tt)
      else pure tt

  -- The condition over the result of one action.
  unfoldable pub result_fails : Bytes → Bool → Bytes → Run (Context I W) Bool
  unfolding append_error_message
  result_fails name succeeded error = any_fails (
      append_body sdk (codes "{\"")
      ∷ append_body sdk name
      ∷ append_body sdk (codes "\":{")
      ∷ prv_append_key_value_bool sdk (some (codes "succeeded")) succeeded false
      ∷ append_error_message succeeded error
      ∷ append_body sdk (codes "}}")
      ∷ [])

  module _ (action_handler : Option (ActionHandler W)) where
    -- (*handler)(alias_name, name, value, error)
    unfoldable pub call_action_handler : Bytes → Bytes → Bytes → Run (Context I W) (Bool × Bytes)
    call_action_handler alias_name name value c = elim action_handler [
      | none ↦ fault
      | some handler ↦
          let (succeeded, error, w) = handler alias_name name value sdk.uninitialized c.world in
          done (succeeded, error) (record c { world = w })
    ]

    -- Lines 812 to 852: one action. `false` is the `return` of handle_command.
    unfoldable pub handle_action : ℕ → Item → ℕ → ℕ → Run (Context I W) Bool
    unfolding append_comma result_fails call_action_handler
    handle_action alias_name item alias_index action_index = do
      name_swap ← byte_at (item.key + item.key_len)
      value_swap ← byte_at (item.value + item.value_len)
      poke (item.key + item.key_len) 0
      poke (item.value + item.value_len) 0
      alias_text ← text_at alias_name
      name ← text_at item.key
      value ← text_at item.value
      (succeeded, error) ← call_action_handler alias_text name value
      append_comma alias_index action_index
      overflowed ← result_fails name succeeded error
      if overflowed then pure false else do
        poke (item.key + item.key_len) name_swap
        poke (item.value + item.value_len) value_swap
        pure true

    -- Lines 791 to 862: the loop over the actions of an alias, on fuel. `false` is the `return` of
    -- handle_command.
    unfoldable pub action_loop : ℕ → ℕ → ℕ → ℕ → ℕ → ℕ → Run (Context I W) Bool
    action_loop zero alias_name actions actions_len alias_index action_index = λ c. unfinished
    action_loop (suc fuel) alias_name actions actions_len alias_index action_index =
        let rest = action_loop fuel alias_name actions actions_len alias_index (suc action_index) in
        get_key_and_value_at_index sdk actions actions_len action_index >>= elim [
          | fail ↦ pure false
          | finish ↦ pure true
          | got item ↦ do
            handled ← handle_action alias_name item alias_index action_index
            if handled then rest else pure false
        ]

    -- Lines 761 to 876: the loop over the aliases, on fuel. `false` is the `return` of
    -- handle_command.
    unfoldable pub alias_loop : ℕ → ℕ → ℕ → ℕ → Run (Context I W) Bool
    unfolding action_loop
    alias_loop zero alias_actions_str alias_actions_len alias_index = λ c. unfinished
    alias_loop (suc fuel) alias_actions_str alias_actions_len alias_index =
        let rest = alias_loop fuel alias_actions_str alias_actions_len (suc alias_index) in
        get_key_and_value_at_index sdk alias_actions_str alias_actions_len alias_index >>= elim [
          | fail ↦ pure false
          | finish ↦ pure true
          | got item ↦ do
            alias_name_swap ← byte_at (item.key + item.key_len)
            poke (item.key + item.key_len) 0
            handled ← action_loop fuel item.key item.value item.value_len alias_index 0
            if handled
                then (do poke (item.key + item.key_len) alias_name_swap; rest)
                else pure false
        ]

  -- Whether handle_command goes on after it has parsed the message.
  abbrev has_command : ParseResult → Field → Bool
  has_command success command_id = true
  has_command partial_success command_id = elim command_id.result [
    | field_success ↦ true
    | copy_failed ↦ false
    | type_unmatched ↦ false
    | not_found ↦ false
  ]
  has_command root_type_error command_id = false
  has_command invalid_input command_id = false

  -- Lines 718 to 742: the guard, and the strcat and strncat calls into an array of 256 bytes.
  -- `none` is the `return`.
  unfoldable pub results_path : Field → Run (Context I W) (Option Bytes)
  results_path command_id = do
    app_id ← gets (λ c. c.kii.app_id)
    author ← gets (λ c. c.kii.author)
    let id_len = distance command_id.start command_id.end
    let results_path_length = to_size (
        length thing_if_app_path
        + length app_id
        + length target_part
        + length author.author_id
        + length command_part
        + (id_len + size_mod - 1)
        + length results_part)
    if leb 256 results_path_length then pure none else do
      id ← text_within command_id.start id_len
      resource_path ← sprintf_into 256 (
          thing_if_app_path
          ++ (app_id
              ++ (target_part ++ (author.author_id ++ (command_part ++ (id ++ results_part))))))
      pure (some resource_path)

  -- Lines 689 to 753: parse the message and start the request; the actions' offset and length, or
  -- `none` for a `return`.
  unfoldable pub open_command : ℕ → Run (Context I W) (Option (ℕ × ℕ))
  unfolding results_path
  open_command buffer_size = do
    buffer ← slice 0 buffer_size
    (r, fields) ← prv_kii_thing_if_json_read_object sdk buffer (
        field_by_path sdk (codes "/commandID") field_string none 0
        ∷ field_by_path sdk (codes "/actions") field_array none 0
        ∷ [])
    elim fields [
      | command_id ∷ actions ∷ [] ↦
          if has_command r command_id
          then (do
            path ← results_path command_id
            elim path [
              | none ↦ pure none
              | some resource_path ↦ do
                failed ← call (
                    sdk.kii_api_call_start (codes "PUT") resource_path
                      (some (codes "application/json")) true)
                if nonzero failed
                    then pure none
                    else pure (some (actions.start, distance actions.start actions.end))
            ])
          else pure none
      | _ ↦ λ c. fault
    ]

  module _ (action_handler : Option (ActionHandler W))
      (state_handler : Option (StateHandler I W)) where
    -- Lines 882 to 889: run the request, and report the state.
    unfoldable pub send_results : Run (Context I W) (Unit {0})
    send_results = do
      failed ← call sdk.kii_api_call_run
      if nonzero failed then pure tt else do prv_send_state sdk state_handler; pure tt

    -- Lines 878 to 889: end the body, and send it.
    unfoldable pub close_command : Run (Context I W) (Unit {0})
    close_command = do
      overflowed ← append_body sdk (codes "]}")
      if nonzero overflowed then pure tt else send_results

    -- `action_handler` and `state_handler` are those of the instance that app_context points to.
    -- The loops have `fuel` rounds.
    unfoldable pub handle_command : ℕ → ℕ → Run (Context I W) (Unit {0})
    unfolding open_command alias_loop send_results close_command
    handle_command fuel buffer_size = do
      opened ← open_command buffer_size
      elim opened [
        | none ↦ pure tt
        | some (alias_actions_str, alias_actions_len) ↦ do
          overflowed ← append_body sdk (codes "{\"actionResults\":[")
          if nonzero overflowed then pure tt else do
            finished ← alias_loop action_handler fuel alias_actions_str alias_actions_len 0
            if finished then close_command else pure tt
      ]

    pub test_handle_command : ℕ → ℕ → Run (Context I W) (Unit {0})
    unfolding handle_command
    test_handle_command = handle_command

    -- The message is given to the custom handler as its text and its length.
    pub received_callback : Option (CustomPushHandler I W) → ℕ → ℕ → Run (Context I W) (Unit {0})
    received_callback none fuel buffer_size = handle_command fuel buffer_size
    received_callback (some custom_push_handler) fuel buffer_size = do
      message ← gets (λ c. c.message)
      skip ← custom_push_handler message buffer_size
      if skip then pure tt else handle_command fuel buffer_size
