-- ===== src/LinuxSample/Options.antt =====
-- The options of the sub-commands of the Linux sample, linux-sample/example.c.
use thing_if_thing_sdk.Prelude.{Bytes, codes, ℕ, List, [], ◌∷◌, Option, ◌==◌, if◌then◌else◌}

pub data HasArgument : Type 0 where
  no_argument required_argument : HasArgument

-- struct option, with `flag` NULL.
pub record LongOption : Type 0 where
  pub name : Bytes
  pub has_arg : HasArgument
  pub val : ℕ

-- One result of getopt_long other than -1: its value, the index and optarg that it leaves.
pub record Parsed : Type 0 where
  pub c : ℕ
  pub opt_index : ℕ
  pub optarg : Option Bytes

abbrev option : Bytes → HasArgument → ℕ → LongOption
option name has_arg val = record { name = name; has_arg = has_arg; val = val }

abbrev pub token_options : List LongOption
token_options =
    option (codes "thing-id") required_argument 0
    ∷ option (codes "access-token") required_argument 1
    ∷ option (codes "help") no_argument 2
    ∷ []

abbrev pub onboard_options : List LongOption
onboard_options =
    option (codes "vendor-thing-id") required_argument 0
    ∷ option (codes "thing-id") required_argument 1
    ∷ option (codes "password") required_argument 2
    ∷ option (codes "help") no_argument 3
    ∷ []

abbrev pub get_options : List LongOption
get_options =
    option (codes "vendor-thing-id") required_argument 0
    ∷ option (codes "thing-id") required_argument 1
    ∷ option (codes "password") required_argument 2
    ∷ option (codes "firmware-version") no_argument 3
    ∷ option (codes "thing-type") no_argument 4
    ∷ option (codes "help") no_argument 5
    ∷ []

abbrev pub update_options : List LongOption
update_options =
    option (codes "vendor-thing-id") required_argument 0
    ∷ option (codes "thing-id") required_argument 1
    ∷ option (codes "password") required_argument 2
    ∷ option (codes "firmware-version") required_argument 3
    ∷ option (codes "thing-type") required_argument 4
    ∷ option (codes "help") no_argument 5
    ∷ []

-- `case k: x = optarg;`
abbrev pub stored : Parsed → ℕ → Option Bytes → Option Bytes
stored p k x = if p.c == k then p.optarg else x
