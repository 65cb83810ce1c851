-- ===== src/Tests/Pushed.antt =====
-- What the parsers of the test server find in its command.
use thing_if_thing_sdk.Prelude.{
  Bytes, codes, take, drop, ℕ, [], ◌∷◌, ◌++◌, some, ◌≡◌, refl, arith, Bool-cases, bytes_eq, inl,
  inr, replicate,
}
use thing_if_thing_sdk.Flow.{done}
use thing_if_thing_sdk.Kii.{Field, primitive, field_success, not_found}
use thing_if_thing_sdk.Context.{Context}
use thing_if_thing_sdk.Session.{prv_kii_thing_if_json_read_object}
use thing_if_thing_sdk.Command.{open_command, results_path}
use thing_if_thing_sdk.Command.Items.{item_field, got, finish, decimal}
use thing_if_thing_sdk.Command.Items.Found.{
  Holds, get_key_and_value_at_index-got, get_key_and_value_at_index-finish,
}
use thing_if_thing_sdk.Command.Actions.Loop.{Action, ActionAt, ActionsAt, Yields, Explains}
use thing_if_thing_sdk.Command.Aliases.{Alias, AliasAt, AliasesAt}
use thing_if_thing_sdk.Tests.Server.{
  Draft, Log, sdk, context, handler, command, aliases_text, alias_text, actions_text,
  turn_power_text, set_color_text,
}

-- The element that the parser finds at a path.
abbrev pub element : Bytes → ℕ → ℕ → Field
element path start end = record (item_field sdk path) {
  result = field_success;
  start = start;
  end = end;
}

abbrev pub turn_power : Action
turn_power = record {
  item = record { key = 39; key_len = 9; value = 50; value_len = 4 };
  name = codes "turnPower";
  value = codes "true";
}

abbrev pub set_color : Action
set_color = record {
  item = record { key = 58; key_len = 8; value = 68; value_len = 1 };
  name = codes "setColor";
  value = codes "7";
}

abbrev pub led : Alias
led = record {
  item = record { key = 31; key_len = 3; value = 36; value_len = 35 };
  name = codes "led";
  actions = turn_power ∷ set_color ∷ [];
}

-- The message while the alias is handled.
abbrev pub while_led : Bytes
while_led = (take 31 command ++ codes "led") ++ 0 ∷ drop 35 command

pub aliases_held : Holds command 28 45 aliases_text
aliases_held = record { inside = omega arith; bytes = refl }

pub alias_held : Holds command 29 43 alias_text
alias_held = record { inside = omega arith; bytes = refl }

pub actions_held : Holds while_led 36 35 actions_text
actions_held = record { inside = omega arith; bytes = refl }

pub turn_power_held : Holds while_led 37 18 turn_power_text
turn_power_held = record { inside = omega arith; bytes = refl }

pub set_color_held : Holds while_led 56 14 set_color_text
set_color_held = record { inside = omega arith; bytes = refl }

pub led_found : Yields sdk 2 command 28 45 0 (got led.item)
unfolding decimal
led_found =
    get_key_and_value_at_index-got sdk 2 command 28 45 0 1 44 2 5 7 42 aliases_text alias_text
      (omega arith) aliases_held
      (λ tokens h. (tokens, element (codes "/[0]") 1 44, h, refl, refl, refl)) alias_held
      (λ tokens h. (3, _, _, _, tokens, omega arith, refl, refl, refl, refl, refl, refl, refl))

abbrev pub missing : Bytes → Field
missing path = record (item_field sdk path) { result = not_found }

pub aliases_end : Yields sdk 2 command 28 45 1 finish
unfolding decimal
aliases_end =
    get_key_and_value_at_index-finish sdk 2 command 28 45 1 0 0 aliases_text (omega arith)
      aliases_held (λ tokens h. (tokens, missing (codes "/[1]"), h, refl, refl, refl))

pub turn_power_found : Yields sdk 2 while_led 36 35 0 (got turn_power.item)
unfolding decimal
turn_power_found =
    get_key_and_value_at_index-got sdk 2 while_led 36 35 0 1 19 2 11 13 17 actions_text
      turn_power_text (omega arith) actions_held
      (λ tokens h. (tokens, element (codes "/[0]") 1 19, h, refl, refl, refl)) turn_power_held
      (λ tokens h. (3, _, _, _, tokens, omega arith, refl, refl, refl, refl, refl, refl, refl))

pub set_color_found : Yields sdk 2 while_led 36 35 1 (got set_color.item)
unfolding decimal
set_color_found =
    get_key_and_value_at_index-got sdk 2 while_led 36 35 1 20 34 2 10 12 13 actions_text
      set_color_text (omega arith) actions_held
      (λ tokens h. (tokens, element (codes "/[1]") 20 34, h, refl, refl, refl)) set_color_held
      (λ tokens h. (3, _, _, _, tokens, omega arith, refl, refl, refl, refl, refl, refl, refl))

pub actions_end : Yields sdk 2 while_led 36 35 2 finish
unfolding decimal
actions_end =
    get_key_and_value_at_index-finish sdk 2 while_led 36 35 2 0 0 actions_text (omega arith)
      actions_held (λ tokens h. (tokens, missing (codes "/[2]"), h, refl, refl, refl))

pub turn_power_at : ActionAt while_led (take 31 command) (codes "led") turn_power
turn_power_at = record {
  rest = codes ":[{\"";
  between = codes ":";
  after = drop 55 command;
  behind_name = 34;
  behind_value = 125;
  placed = record {
    key_at = refl;
    key_len = refl;
    value_at = refl;
    value_len = refl;
    key_text = ground arith;
    value_text = ground arith;
  };
  lies = refl;
}

pub set_color_at : ActionAt while_led (take 31 command) (codes "led") set_color
set_color_at = record {
  rest = codes ":[{\"turnPower\":true},{\"";
  between = codes ":";
  after = drop 70 command;
  behind_name = 34;
  behind_value = 125;
  placed = record {
    key_at = refl;
    key_len = refl;
    value_at = refl;
    value_len = refl;
    key_text = ground arith;
    value_text = ground arith;
  };
  lies = refl;
}

pub led_actions : ActionsAt sdk 2 while_led (take 31 command) (codes "led") 36 35 0 led.actions
led_actions = (turn_power_found, turn_power_at, (set_color_found, set_color_at, actions_end))

pub led_at : AliasAt sdk 2 command led
led_at = record {
  start = take 31 command;
  rest = drop 35 command;
  behind = 34;
  lies = refl;
  key_at = refl;
  key_len = refl;
  key_text = ground arith;
  actions_at = led_actions;
}

pub aliases_at : AliasesAt sdk 2 command 28 45 0 (led ∷ [])
aliases_at = (led_found, led_at, aliases_end)

pub explains : Explains sdk handler
explains alias name value w = elim (Bool-cases (bytes_eq name (codes "setColor"))) [
  | inl color ↦ rw color refl
  | inr other ↦ rw other tt
]

-- The request with the results of the command is open.
abbrev pub opened : Context Draft Log
opened = record context {
  kii = record context.kii {
    tokens = replicate 2 (record { type = primitive; start = 0; end = 0 });
    internals = record {
      head = codes "PUT thing-if/apps/app/targets/thing:th/commands/c1/action-results";
      body = [];
      room = 200;
      capacity = 200;
    };
  };
}

-- The same with a request of 60 bytes.
abbrev pub short_of : Context Draft Log → Context Draft Log
short_of c = record c {
  kii = record c.kii { internals = record c.kii.internals { room = 60; capacity = 60 } };
}

-- The same before the request is started.
abbrev pub pushed : Context Draft Log
pushed = record context {
  kii = record context.kii {
    tokens = replicate 2 (record { type = primitive; start = 0; end = 0 });
  };
}

pub command_opens : open_command sdk 74 pushed ≡ done (some (28, 45)) opened
unfolding open_command results_path prv_kii_thing_if_json_read_object
command_opens = refl
