-- ===== src/Tests/Commands.antt =====
-- A pushed command, from its message to the request with its results.
use thing_if_thing_sdk.Prelude.{
  none, false, List, ◌≤◌, length, true, codes, length, take, pos, [], ◌∷◌, Option, none, some, ◌≡◌,
  refl, arith, replicate,
}
use thing_if_thing_sdk.Flow.{done, fault}
use thing_if_thing_sdk.Kii.{Token, Field, field_string}
use thing_if_thing_sdk.Context.{Context}
use thing_if_thing_sdk.Thing.{CustomPushHandler, StateHandler}
use thing_if_thing_sdk.Session.{field_by_path, prv_kii_thing_if_json_read_object}
use thing_if_thing_sdk.Report.{prv_send_state, send_report}
use thing_if_thing_sdk.ResourcePath.{prv_set_state_resource_path}
use thing_if_thing_sdk.Request.{
  append_body, prv_append_key_value, prv_append_key_value_bool,
  prv_append_key_value_string_optional, prv_writer,
}
use thing_if_thing_sdk.Command.{
  received_callback, open_command, alias_loop, action_loop, handle_command, handle_action,
  results_path, call_action_handler, append_comma, result_fails, append_error_message,
  close_command, send_results,
}
use thing_if_thing_sdk.Command.Items.{
  got, get_key_and_value_at_index, decimal, item_of, jsmn, key_and_value,
  prv_kii_thing_if_get_key_and_value_from_json,
}
use thing_if_thing_sdk.Command.Items.Found.{get_key_and_value_at_index-got}
use thing_if_thing_sdk.Command.Actions.Loop.{Completed}
use thing_if_thing_sdk.Command.Aliases.{alias_loop-Completed}
use thing_if_thing_sdk.Command.Sent.{ComesBack}
use thing_if_thing_sdk.Command.Whole.{
  received_callback-Sends, Received, Sends, handle_command-Sends,
}
use thing_if_thing_sdk.Tests.Server.{
  Draft, Log, sdk, buffering, context, handler, command, aliases_text, alias_text, state_after,
}
use thing_if_thing_sdk.Command.Overflow.{Stopped}
use thing_if_thing_sdk.Command.Overflow.Whole.{handle_command-Stopped}
use thing_if_thing_sdk.Tests.Pushed.{
  short_of, set_color, led, while_led, aliases_held, alias_held, set_color_at, aliases_at, explains,
  opened, pushed, command_opens, element,
}
use thing_if_thing_sdk.Command.Actions.{handle_action-done}
use thing_if_thing_sdk.Command.Commas.{alias_loop-commas}
use thing_if_thing_sdk.Command.Path.{results_path-bounds}
use thing_if_thing_sdk.Request.Writes.{at, Appended}

abbrev empty_state : StateHandler Draft Log
empty_state writer c = writer (codes "{}") c

empty_state-comes_back : ComesBack sdk empty_state
unfolding prv_writer append_body
empty_state-comes_back c = ground arith

abbrev reporter : Option (StateHandler Draft Log)
reporter = some empty_state

-- After a command the handler has run twice, the results were sent, and then the state.
log_of_command :
    (state_after context (handle_command sdk (some handler) reporter 10 74 context)).world
    ≡ codes "{}"
      ∷ codes "PUT thing-if/apps/app/targets/thing:th/states"
      ∷ codes
          "{\"actionResults\":[{\"turnPower\":{\"succeeded\":true}},{\"setColor\":{\"succeeded\":false,\"errorMessage\":\"no color\"}}]}"
      ∷ codes "PUT thing-if/apps/app/targets/thing:th/commands/c1/action-results"
      ∷ codes "setColor"
      ∷ codes "turnPower"
      ∷ []
unfolding handle_command open_command results_path alias_loop action_loop handle_action
    call_action_handler append_comma result_fails append_error_message close_command send_results
    get_key_and_value_at_index decimal item_of jsmn key_and_value
    prv_kii_thing_if_get_key_and_value_from_json prv_kii_thing_if_json_read_object append_body
    prv_append_key_value prv_append_key_value_bool prv_append_key_value_string_optional
    prv_send_state send_report prv_set_state_resource_path prv_writer
log_of_command = refl

handle_command-Sends_example :
    Sends sdk
      (buffering (pos 0) (pos 200))
      2
      handler
      explains
      empty_state
      empty_state-comes_back
      (codes
        "{\"actionResults\":[{\"turnPower\":{\"succeeded\":true}},{\"setColor\":{\"succeeded\":false,\"errorMessage\":\"no color\"}}]}")
      (codes "setColor" ∷ codes "turnPower" ∷ [])
      opened
      (handle_command sdk (some handler) reporter 10 74 pushed)
handle_command-Sends_example =
    handle_command-Sends sdk (buffering (pos 0) (pos 200)) 2 handler explains empty_state
      empty_state-comes_back 10 74 28 45 (led ∷ []) pushed opened command_opens (omega arith)
      (omega arith) aliases_at (omega arith)

alias_loop-Completed_example :
    Completed sdk
      (buffering (pos 0) (pos 200))
      2
      (codes
        "{\"turnPower\":{\"succeeded\":true}},{\"setColor\":{\"succeeded\":false,\"errorMessage\":\"no color\"}}")
      (codes "setColor" ∷ codes "turnPower" ∷ [])
      opened
      (alias_loop sdk (some handler) 10 28 45 0 opened)
alias_loop-Completed_example =
    alias_loop-Completed sdk (buffering (pos 0) (pos 200)) 2 handler explains command 28 45 10 0
      (led ∷ []) opened (omega arith) refl (omega arith) aliases_at (omega arith)

handled_action :
    (j : Draft) × (handle_action sdk
        (some handler)
        31
        set_color.item
        0
        1
        (record opened { message = while_led })
      ≡ done true
          (record (at (record opened { message = while_led }) j) { world = codes "setColor" ∷ [] }))
    × Appended sdk
        (buffering (pos 0) (pos 200))
        (codes ",{\"setColor\":{\"succeeded\":false,\"errorMessage\":\"no color\"}}")
        opened.kii.internals
        j
handled_action =
    handle_action-done sdk (buffering (pos 0) (pos 200)) handler (take 31 command) (codes "led")
      set_color_at.rest set_color.item set_color.name set_color_at.between set_color.value
      set_color_at.after set_color_at.behind_name set_color_at.behind_value set_color_at.placed 31
      refl (ground arith) (record opened { message = while_led }) set_color_at.lies 0 1
      (codes "no color") refl (omega arith)

alias_loop-commas_example :
    Completed sdk
      (buffering (pos 0) (pos 200))
      2
      (codes
        "{\"turnPower\":{\"succeeded\":true}},{\"setColor\":{\"succeeded\":false,\"errorMessage\":\"no color\"}}")
      (codes "setColor" ∷ codes "turnPower" ∷ [])
      opened
      (alias_loop sdk (some handler) 10 28 45 0 opened)
alias_loop-commas_example =
    alias_loop-commas sdk (buffering (pos 0) (pos 200)) 2 handler explains command 28 45 10 led []
      opened (omega arith) refl (omega arith) aliases_at (omega arith)

-- The field of the command's ID, and an app ID that makes the path 256 bytes long.
abbrev id_field : Field
id_field = record (field_by_path sdk (codes "/commandID") field_string none 0) {
  start = 14;
  end = 16;
}

abbrev long_app : Context Draft Log
long_app = record pushed { kii = record pushed.kii { app_id = replicate 198 65 } }

results_path-bounds_example : results_path sdk id_field long_app ≡ fault
results_path-bounds_example =
    results_path-bounds sdk long_app id_field (codes "c1") refl refl (omega arith)

found_item :
    (t : List Token) × (2 ≤ length t)
    × (get_key_and_value_at_index sdk 28 45 0 pushed
        ≡ done (got led.item) (record pushed { kii = record pushed.kii { tokens = t } }))
unfolding decimal
found_item =
    get_key_and_value_at_index-got sdk 2 command 28 45 0 1 44 2 5 7 42 aliases_text alias_text
      (omega arith) aliases_held
      (λ tokens h. (tokens, element (codes "/[0]") 1 44, h, refl, refl, refl)) alias_held
      (λ tokens h. (3, _, _, _, tokens, omega arith, refl, refl, refl, refl, refl, refl, refl))
      pushed refl (omega arith)

handle_command-Stopped_example :
    Stopped sdk handler tt
      (short_of opened)
      (handle_command sdk (some handler) reporter 10 74 (short_of pushed))
unfolding open_command results_path prv_kii_thing_if_json_read_object
handle_command-Stopped_example =
    handle_command-Stopped sdk (buffering (pos 0) (pos 200)) 2 handler explains reporter 10 74 28 45
      (led ∷ []) (short_of pushed) (short_of opened) refl (omega arith) (omega arith) aliases_at
      (omega arith)

-- A custom push handler that looks at every message and skips none.
abbrev look : CustomPushHandler Draft Log
look message size c = done false (record c { world = codes "push" ∷ c.world })

-- After the custom handler, before and after the request is started.
abbrev looked_at : Context Draft Log → Context Draft Log
looked_at c = record c { world = codes "push" ∷ [] }

received_callback-Sends_example :
    let body =
      codes
        "{\"actionResults\":[{\"turnPower\":{\"succeeded\":true}},{\"setColor\":{\"succeeded\":false,\"errorMessage\":\"no color\"}}]}" in
    let w = codes "setColor" ∷ codes "turnPower" ∷ codes "push" ∷ [] in
    Sends sdk
      (buffering (pos 0) (pos 200))
      2
      handler
      explains
      empty_state
      empty_state-comes_back
      body
      w
      (looked_at opened)
      (received_callback sdk (some handler) reporter none 10 74 (looked_at pushed))
    × Received sdk
        (buffering (pos 0) (pos 200))
        2
        handler
        explains
        empty_state
        empty_state-comes_back
        false
        body
        w
        (looked_at pushed)
        (looked_at opened)
        (received_callback sdk (some handler) reporter (some look) 10 74 pushed)
unfolding open_command results_path prv_kii_thing_if_json_read_object
received_callback-Sends_example =
    received_callback-Sends sdk (buffering (pos 0) (pos 200)) 2 handler explains empty_state
      empty_state-comes_back look 10 74 28 45 (led ∷ []) pushed (looked_at pushed)
      (looked_at opened) false refl refl (omega arith) (omega arith) aliases_at (omega arith)
