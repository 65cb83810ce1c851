-- ===== src/LinuxSample/Program.antt =====
-- The program of the Linux sample, main of linux-sample/example.c, with the settings of
-- linux-sample/example.h. printf and print_help, which only write to the terminal, are left out.
pub mod Equipped
pub mod Ready
pub mod Started
pub mod Help
use thing_if_thing_sdk.Prelude.{
  Bool, true, false, Bytes, codes, length, get_elem?, bytes_eq, ℕ, ℤ, pos, nonzero, List, [], ◌∷◌,
  Option, none, some, ◌||◌, not, ◌==◌, if◌then◌else◌,
}
use thing_if_thing_sdk.Flow.{Outcome, done, fault, Run, pure, ◌>>=◌, ◌>>◌}
use thing_if_thing_sdk.Kii.{Sdk, Address}
use thing_if_thing_sdk.Context.{ErrorInfo}
use thing_if_thing_sdk.Thing.{Host, SystemCb, CommandHandlerResource, StateUpdaterResource}
use thing_if_thing_sdk.Onboard.{OnboardOptions}
use thing_if_thing_sdk.Lifecycle.{
  InitArguments, Operation, init, init_onboarded, onboard_vendor, onboard_thing, get_version,
  update_version, get_type, update_type, perform, start,
}
use thing_if_thing_sdk.LinuxSample.Options.{
  Parsed, LongOption, token_options, onboard_options, get_options, update_options, stored,
}
use thing_if_thing_sdk.LinuxSample.{
  Process, Platform, action_handler, state_handler, custom_push_handler,
}

-- What main takes from outside example.c: the callbacks of sys_cb_impl.h, the addresses of its
-- variables, what is in variables that nothing has written, and the C library.
pub record Surroundings (O : Type 0) : Type 0 where
  pub system_cb : SystemCb (Process O)
  pub kii_thing_if : Address
  pub command_handler_buff : Address
  pub mqtt_buff : Address
  pub state_updater_buff : Address
  pub uninitialized_text : Bytes
  pub uninitialized_error : ErrorInfo
  pub pthread_mutex_init : O → ℤ × O
  -- the results of getopt_long on the arguments up to the first -1
  pub getopt_long : List Bytes → List LongOption → List Parsed

-- How main ends: by exit, or in its endless loop.
pub data Ending : Type 0 where
  exited : ℕ → Ending
  running : Ending

-- The optional arguments that main passes: NULL for all.
abbrev pub no_options : OnboardOptions
no_options = record {
  thing_type = none;
  firmware_version = none;
  layout_position = none;
  thing_properties = none;
}

abbrev pub given : {A : Type 0} → Option A → Bool
given none = false
given (some a) = true

module _ {I O : Type 0} (sdk : Sdk I (Process O)) (platform : Platform O)
    (around : Surroundings O) where
  abbrev pub command_handler_resource : CommandHandlerResource I (Process O)
  command_handler_resource = record {
    buffer = around.command_handler_buff;
    buffer_size = 4096;
    mqtt_buffer = around.mqtt_buff;
    mqtt_buffer_size = 2048;
    action_handler = some (action_handler platform);
    state_handler = some (state_handler platform);
    custom_push_handler = some (custom_push_handler platform);
  }

  abbrev pub state_updater_resource : StateUpdaterResource I (Process O)
  state_updater_resource = record {
    buffer = around.state_updater_buff;
    buffer_size = 4096;
    period = pos 60;
    state_handler = some (state_handler platform);
  }

  -- The arguments of every call of an initialiser.
  abbrev pub init_arguments : InitArguments I (Process O)
  init_arguments = record {
    self = around.kii_thing_if;
    app_id = some (codes "ex4liedteote");
    app_key = some (codes "d787de623f15483fa887815017f010e6");
    app_host = some (codes "api.kii.com");
    command_handler_resource = some command_handler_resource;
    state_updater_resource = some state_updater_resource;
    system_cb = around.system_cb;
    resource_cb = 0;
  }

  -- A call with `error` pointing to this, or NULL.
  abbrev pub with_error : Option ErrorInfo → Operation I (Process O) → Run (Host I (Process O)) Bool
  with_error error op h = perform sdk op (record h { error = error })

  -- The call of an onboarding function, or `none` where main exits: neither ID or both, or no
  -- password.
  abbrev pub onboarding :
      Option Bytes → Option Bytes → Option Bytes → Option (Operation I (Process O))
  onboarding vendor thing none = none
  onboarding none none (some password) = none
  onboarding (some v) (some t) (some password) = none
  onboarding (some v) none (some password) =
      some (onboard_vendor (some v) (some password) no_options)
  onboarding none (some t) (some password) =
      some (onboard_thing (some t) (some password) no_options)

  unfoldable pub init_and_onboard : Operation I (Process O) → Run (Host I (Process O)) Bool
  init_and_onboard op = do
    initialised ← with_error none (init init_arguments)
    if initialised then with_error none op else pure false

  -- From here on, `none` means that main goes on to start, and `some` is the status of exit.
  -- `if (strcmp(optName, "help") == 0) { break; }`, and the next round otherwise. There is no name at
  -- an index behind the options.
  abbrev pub unless_named :
      Option LongOption → Run (Host I (Process O)) (Option ℕ) → Run (Host I (Process O)) (Option ℕ)
  unless_named none next = λ h. fault
  unless_named (some o) next = if bytes_eq o.name (codes "help") then pure none else next

  abbrev pub unless_help :
      List LongOption
      → Parsed
      → Run (Host I (Process O)) (Option ℕ)
      → Run (Host I (Process O)) (Option ℕ)
  unless_help options p next = unless_named (get_elem? options p.opt_index) next

  -- What follows the last option of `onboard-with-token`.
  unfoldable pub onboard_with_token :
      Option Bytes → Option Bytes → Run (Host I (Process O)) (Option ℕ)
  onboard_with_token (some thing_id) (some access_token) = do
    result ← with_error none (init_onboarded init_arguments thing_id access_token)
    pure (if result then none else some 1)
  onboard_with_token none access_token = pure (some 1)
  onboard_with_token (some thing_id) none = pure (some 1)

  unfoldable pub token_loop :
      List Parsed → Option Bytes → Option Bytes → Run (Host I (Process O)) (Option ℕ)
  token_loop [] thing_id access_token = onboard_with_token thing_id access_token
  token_loop (p ∷ ps) thing_id access_token =
      unless_help token_options p (token_loop ps (stored p 0 thing_id) (stored p 1 access_token))

  -- What follows the last option of `onboard`.
  unfoldable pub onboard_with_password :
      Option (Operation I (Process O)) → Run (Host I (Process O)) (Option ℕ)
  onboard_with_password none = pure (some 1)
  onboard_with_password (some op) = do
    result ← init_and_onboard op
    pure (if result then none else some 1)

  unfoldable pub onboard_loop :
      List Parsed → Option Bytes → Option Bytes → Option Bytes → Run (Host I (Process O)) (Option ℕ)
  onboard_loop [] vendor_thing_id thing_id password =
      onboard_with_password (onboarding vendor_thing_id thing_id password)
  onboard_loop (p ∷ ps) vendor_thing_id thing_id password =
      unless_help onboard_options p
        (onboard_loop ps (stored p 0 vendor_thing_id) (stored p 1 thing_id) (stored p 2 password))

  -- An operation if it was asked for; otherwise nothing is to fail.
  abbrev pub if_asked : Option (Operation I (Process O)) → Run (Host I (Process O)) Bool
  if_asked none = pure true
  if_asked (some op) = with_error (some around.uninitialized_error) op

  abbrev pub asked : Bool → Operation I (Process O) → Option (Operation I (Process O))
  asked flag op = if flag then some op else none

  -- Up to two operations, the second if the first did not fail; exit with `failure` if one failed.
  unfoldable pub attributes :
      ℕ
      → Option (Operation I (Process O))
      → Option (Operation I (Process O))
      → Run (Host I (Process O)) ℕ
  attributes failure version type = do
    version_done ← if_asked version
    if version_done
        then (do type_done ← if_asked type; pure (if type_done then 0 else failure))
        else pure failure

  -- What follows the options of `get` and `update`.
  unfoldable pub onboard_for :
      ℕ
      → Option (Operation I (Process O))
      → Option (Operation I (Process O))
      → Option (Operation I (Process O))
      → Run (Host I (Process O)) ℕ
  onboard_for failure none version type = pure 1
  onboard_for failure (some op) none none = pure 1
  onboard_for failure (some op) version type = do
    ready ← init_and_onboard op
    if ready then attributes failure version type else pure 1

  -- A failed get exits with 0.
  unfoldable pub get_loop :
      List Parsed
      → Option Bytes
      → Option Bytes
      → Option Bytes
      → Bool
      → Bool
      → Run (Host I (Process O)) ℕ
  get_loop [] vendor_thing_id thing_id password firmware_version thing_type =
      onboard_for 0 (onboarding vendor_thing_id thing_id password)
        (asked firmware_version (get_version around.uninitialized_text 64))
        (asked thing_type (get_type around.uninitialized_text 64))
  get_loop (p ∷ ps) vendor_thing_id thing_id password firmware_version thing_type =
      if p.c == 5
      then pure 0
      else get_loop ps (stored p 0 vendor_thing_id) (stored p 1 thing_id) (stored p 2 password)
          (p.c == 3 || firmware_version) (p.c == 4 || thing_type)

  abbrev update :
      (Option Bytes → Operation I (Process O)) → Option Bytes → Option (Operation I (Process O))
  update op none = none
  update op (some text) = some (op (some text))

  unfoldable pub update_loop :
      List Parsed
      → Option Bytes
      → Option Bytes
      → Option Bytes
      → Option Bytes
      → Option Bytes
      → Run (Host I (Process O)) ℕ
  update_loop [] vendor_thing_id thing_id password firmware_version thing_type =
      onboard_for 1 (onboarding vendor_thing_id thing_id password)
        (update update_version firmware_version) (update update_type thing_type)
  update_loop (p ∷ ps) vendor_thing_id thing_id password firmware_version thing_type =
      if p.c == 5
      then pure 0
      else update_loop ps (stored p 0 vendor_thing_id) (stored p 1 thing_id) (stored p 2 password)
          (stored p 3 firmware_version) (stored p 4 thing_type)

  unfoldable pub sub_command : Bytes → List Bytes → Run (Host I (Process O)) (Option ℕ)
  sub_command subc argv =
      if bytes_eq subc (codes "onboard-with-token")
      then token_loop (around.getopt_long argv token_options) none none
      else (if bytes_eq subc (codes "onboard")
          then onboard_loop (around.getopt_long argv onboard_options) none none none
          else (if bytes_eq subc (codes "get")
              then (do
                status ← get_loop (around.getopt_long argv get_options) none none none false false
                pure (some status))
              else (if bytes_eq subc (codes "update")
                  then (do
                    status ←
                        update_loop (around.getopt_long argv update_options) none none none none
                          none
                    pure (some status))
                  else pure (some 0))))

  abbrev pub init_mutex : Run (Host I (Process O)) ℤ
  init_mutex h =
      let (r, o) = around.pthread_mutex_init h.world.others in
      done r (record h { world = record h.world { others = o } })

  -- Exit, or the lines behind the sub-commands: the result of start is ignored.
  abbrev pub ending_of : Option ℕ → Run (Host I (Process O)) Ending
  ending_of (some status) = pure (exited status)
  ending_of none = do start sdk; pure running

  unfoldable pub main : List Bytes → Run (Host I (Process O)) Ending
  main argv = do
    failed ← init_mutex
    if nonzero failed then pure (exited 1) else elim argv [
      | program ∷ subc ∷ arguments ↦ do
        ended ← sub_command subc (program ∷ subc ∷ arguments)
        ending_of ended
      | _ ↦ pure (exited 1)
    ]
