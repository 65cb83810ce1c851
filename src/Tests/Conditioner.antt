-- ===== src/Tests/Conditioner.antt =====
-- The Linux sample with the test server, and a command for its air conditioner.
use thing_if_thing_sdk.Prelude.{
  Bool, true, false, Bytes, codes, take, drop, ℕ, pos, [], ◌∷◌, ◌++◌, Option, some, none, ◌≡◌, refl,
  arith, replicate,
}
use thing_if_thing_sdk.Flow.{done}
use thing_if_thing_sdk.Kii.{Kii, Sdk, Field, primitive, field_success, not_found, zeroed_kii}
use thing_if_thing_sdk.Context.{Context}
use thing_if_thing_sdk.Session.{prv_kii_thing_if_json_read_object}
use thing_if_thing_sdk.Request.Writes.{Buffering}
use thing_if_thing_sdk.Command.{open_command, results_path}
use thing_if_thing_sdk.Command.Items.{item_field, got, finish, decimal}
use thing_if_thing_sdk.Command.Items.Found.{
  Holds, get_key_and_value_at_index-got, get_key_and_value_at_index-finish,
}
use thing_if_thing_sdk.Command.Actions.Loop.{Action, ActionAt, Yields}
use thing_if_thing_sdk.Command.Aliases.{Alias, AliasAt, AliasesAt}
use thing_if_thing_sdk.LinuxSample.{Process, Platform}
use thing_if_thing_sdk.LinuxSample.Locks.{Working}
use thing_if_thing_sdk.Tests.Server.{
  Draft, Log, server, buffering_of, author, error_info, humidity_command, humidity_aliases,
  humidity_text, power_text, turn_power_text,
}

-- What surrounds the sample: the log of the server, whether the mutex is held, and the state file.
pub record Outside : Type 0 where
  pub log : Log
  pub mutex_held : Bool
  pub file : Option Bytes

abbrev pub platform : Platform Outside
platform = record {
  pthread_mutex_lock = λ o. (pos 0, record o { mutex_held = true });
  pthread_mutex_unlock = λ o. (pos 0, record o { mutex_held = false });
  state_file = λ o. o.file;
  is_kii_json_true = λ b. b;
}

abbrev pub working : Working platform
working = record {
  held = λ o. o.mutex_held;
  locks = λ o. (refl, refl);
  unlocks = λ o h. (refl, refl);
}

abbrev pub process : Option Bytes → Process Outside
process file = record {
  m_air_conditioner = record { power = false; temperature = pos 25 };
  others = record { log = []; mutex_held = false; file = file };
}

abbrev pub log_text : Bytes → Process Outside → Process Outside
log_text text w = record w { others = record w.others { log = text ∷ w.others.log } }

abbrev pub sdk : Sdk Draft (Process Outside)
sdk = server log_text (pos 0) (pos 200)

abbrev pub buffering : Buffering sdk
buffering = buffering_of log_text (pos 0) (pos 200)

abbrev pub kii : Kii Draft (Process Outside)
kii = record (zeroed_kii sdk) {
  app_id = codes "app";
  app_key = codes "key";
  author = author;
  delay_ms_cb = some (λ msec w. log_text (codes "delay") w);
  tokens = replicate 2 (record { type = primitive; start = 0; end = 0 });
  internals = record { head = []; body = []; room = 200; capacity = 200 };
}

abbrev pub context : Option Bytes → Context Draft (Process Outside)
context file = record {
  kii = kii;
  error = some error_info;
  message = humidity_command;
  world = process file;
}

abbrev pub turn_power : Action
turn_power = record {
  item = record { key = 49; key_len = 9; value = 60; value_len = 4 };
  name = codes "turnPower";
  value = codes "true";
}

abbrev pub humidity : Alias
humidity = record {
  item = record { key = 31; key_len = 13; value = 46; value_len = 20 };
  name = codes "HumidityAlias";
  actions = turn_power ∷ [];
}

-- The element that the parser finds at a path, and one that it does not find.
abbrev element : Bytes → ℕ → ℕ → Field
element path start end = record (item_field sdk path) {
  result = field_success;
  start = start;
  end = end;
}

abbrev missing : Bytes → Field
missing path = record (item_field sdk path) { result = not_found }

-- The message while the alias is handled.
abbrev while_humidity : Bytes
while_humidity = (take 31 humidity_command ++ codes "HumidityAlias") ++ 0 ∷ drop 45 humidity_command

aliases_held : Holds humidity_command 28 40 humidity_aliases
aliases_held = record { inside = omega arith; bytes = refl }

alias_held : Holds humidity_command 29 38 humidity_text
alias_held = record { inside = omega arith; bytes = refl }

actions_held : Holds while_humidity 46 20 power_text
actions_held = record { inside = omega arith; bytes = refl }

turn_power_held : Holds while_humidity 47 18 turn_power_text
turn_power_held = record { inside = omega arith; bytes = refl }

humidity_found : Yields sdk 2 humidity_command 28 40 0 (got humidity.item)
unfolding decimal
humidity_found =
    get_key_and_value_at_index-got sdk 2 humidity_command 28 40 0 1 39 2 15 17 37 humidity_aliases
      humidity_text (omega arith) aliases_held
      (λ tokens h. (tokens, element (codes "/[0]") 1 39, h, refl, refl, refl)) alias_held
      (λ tokens h. (3, _, _, _, tokens, omega arith, refl, refl, refl, refl, refl, refl, refl))

aliases_end : Yields sdk 2 humidity_command 28 40 1 finish
unfolding decimal
aliases_end =
    get_key_and_value_at_index-finish sdk 2 humidity_command 28 40 1 0 0 humidity_aliases
      (omega arith) aliases_held (λ tokens h. (tokens, missing (codes "/[1]"), h, refl, refl, refl))

turn_power_found : Yields sdk 2 while_humidity 46 20 0 (got turn_power.item)
unfolding decimal
turn_power_found =
    get_key_and_value_at_index-got sdk 2 while_humidity 46 20 0 1 19 2 11 13 17 power_text
      turn_power_text (omega arith) actions_held
      (λ tokens h. (tokens, element (codes "/[0]") 1 19, h, refl, refl, refl)) turn_power_held
      (λ tokens h. (3, _, _, _, tokens, omega arith, refl, refl, refl, refl, refl, refl, refl))

actions_end : Yields sdk 2 while_humidity 46 20 1 finish
unfolding decimal
actions_end =
    get_key_and_value_at_index-finish sdk 2 while_humidity 46 20 1 0 0 power_text (omega arith)
      actions_held (λ tokens h. (tokens, missing (codes "/[1]"), h, refl, refl, refl))

turn_power_at :
    ActionAt while_humidity (take 31 humidity_command) (codes "HumidityAlias") turn_power
turn_power_at = record {
  rest = codes ":[{\"";
  between = codes ":";
  after = drop 65 humidity_command;
  behind_name = 34;
  behind_value = 125;
  placed = record {
    key_at = refl;
    key_len = refl;
    value_at = refl;
    value_len = refl;
    key_text = ground arith;
    value_text = ground arith;
  };
  lies = refl;
}

humidity_at : AliasAt sdk 2 humidity_command humidity
humidity_at = record {
  start = take 31 humidity_command;
  rest = drop 45 humidity_command;
  behind = 34;
  lies = refl;
  key_at = refl;
  key_len = refl;
  key_text = ground arith;
  actions_at = (turn_power_found, turn_power_at, actions_end);
}

pub aliases_at : AliasesAt sdk 2 humidity_command 28 40 0 (humidity ∷ [])
aliases_at = (humidity_found, humidity_at, aliases_end)

-- The request with the results of the command is open.
abbrev pub opened : Context Draft (Process Outside)
opened = record (context none) {
  kii = record kii {
    internals = record {
      head = codes "PUT thing-if/apps/app/targets/thing:th/commands/c1/action-results";
      body = [];
      room = 200;
      capacity = 200;
    };
  };
}

pub command_opens : open_command sdk 69 (context none) ≡ done (some (28, 40)) opened
unfolding open_command results_path prv_kii_thing_if_json_read_object
command_opens = refl
