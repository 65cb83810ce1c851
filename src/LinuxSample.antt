-- ===== src/LinuxSample.antt =====
-- The handlers of the Linux sample application, linux-sample/example.c: the air conditioner that
-- its mutex protects, its action handler, its state handler and its custom push handler. printf,
-- which only writes to the terminal, is left out.
pub mod Locks
pub mod Actions
pub mod Settled
pub mod Commands
pub mod Numbers
pub mod Reports
pub mod States
pub mod Task
pub mod Options
pub mod Program
use thing_if_thing_sdk.Prelude.{
  Bool, true, false, Bytes, codes, length, take, drop, bytes_eq, ℕ, zero, suc, ◌+◌, ◌*◌, ◌-◌, ℤ,
  pos, negsuc, nonzero, List, [], ◌∷◌, ◌++◌, Option, none, some, ◌&&◌, ◌||◌, not, ◌==◌, ltb, leb,
  if◌then◌else◌,
}
use thing_if_thing_sdk.Flow.{Outcome, done, fault, aborted, unfinished, Run, pure, ◌>>=◌, ◌>>◌}
use thing_if_thing_sdk.Context.{Context}
use thing_if_thing_sdk.Thing.{ActionHandler, StateHandler, Writer, emessage_size}
use thing_if_thing_sdk.Command.Items.{decimal}

-- prv_air_conditioner_t; a temperature is an int.
pub record AirConditioner : Type 0 where
  pub power : Bool
  pub temperature : ℤ

-- What the handlers work on: m_air_conditioner, and the rest of the process and its surroundings,
-- m_mutex among it.
pub record Process (O : Type 0) : Type 0 where
  pub m_air_conditioner : AirConditioner
  pub others : O

-- The calls of POSIX threads and files, and the constant of the Kii SDK that the handlers use.
pub record Platform (O : Type 0) : Type 0 where
  -- pthread_mutex_lock(&m_mutex) and pthread_mutex_unlock(&m_mutex)
  pub pthread_mutex_lock : O → ℤ × O
  pub pthread_mutex_unlock : O → ℤ × O
  -- the bytes of "air_conditioner-state.json", or that fopen returns NULL
  pub state_file : O → Option Bytes
  -- `(int)b == (int)KII_JSON_TRUE`
  pub is_kii_json_true : Bool → Bool

abbrev is_white : ℕ → Bool
is_white b = b == 32 || (leb 9 b && leb b 13)

abbrev is_digit : ℕ → Bool
is_digit b = leb 48 b && leb b 57

abbrev pub digits_value : ℕ → Bytes → ℕ
digits_value n [] = n
digits_value n (b ∷ bs) =
    let more = digits_value (n * 10 + (b - 48)) bs in if is_digit b then more else n

abbrev pub negated : ℕ → ℤ
negated zero = pos zero
negated (suc n) = negsuc n

abbrev signed_value : Bytes → ℤ
signed_value [] = pos 0
signed_value (b ∷ bs) =
    if b == 45
    then negated (digits_value 0 bs)
    else (if b == 43 then pos (digits_value 0 bs) else pos (digits_value 0 (b ∷ bs)))

-- atoi, for a number that an int holds.
unfoldable pub atoi : Bytes → ℤ
atoi [] = pos 0
atoi (b ∷ bs) = let rest = atoi bs in if is_white b then rest else signed_value (b ∷ bs)

-- %d
abbrev pub signed_decimal : ℤ → Bytes
signed_decimal (pos n) = decimal n
signed_decimal (negsuc n) = codes "-" ++ decimal (suc n)

-- An array after a C string was copied to its start.
abbrev pub put_text : Bytes → Bytes → Bytes
put_text text array = text ++ 0 ∷ drop (suc (length text)) array

-- `strncmp(a, literal, n) == 0`, for a literal of n bytes; where the list ends is the NUL.
abbrev pub starts_with : Bytes → Bytes → Bool
starts_with [] bs = true
starts_with (a ∷ as') [] = false
starts_with (a ∷ as') (b ∷ bs) = (a == b) && starts_with as' bs

-- fgets with room for `n` bytes: the line that it stores, up to a newline, and what is left of the
-- file.
abbrev pub fgets : ℕ → Bytes → Bytes × Bytes
fgets zero bs = ([], bs)
fgets (suc n) [] = ([], [])
fgets (suc n) (b ∷ bs) =
    let (line, rest) = fgets n bs in if b == 10 then (b ∷ [], bs) else (b ∷ line, rest)

-- The C string in an array of which only these bytes, and a NUL behind them, are known.
abbrev pub c_text : Bytes → Bytes
c_text [] = []
c_text (b ∷ bs) = if b == 0 then [] else b ∷ c_text bs

-- An air conditioner after memset.
abbrev pub zeroed_air_conditioner : AirConditioner
zeroed_air_conditioner = record { power = false; temperature = pos 0 }

-- The two tests of the action's name. The temperature is read from the name.
abbrev pub changed : Bytes → Bytes → AirConditioner → AirConditioner
changed action_name action_params a =
    let b : AirConditioner =
      if bytes_eq action_name (codes "turnPower")
      then record a { power = bytes_eq action_params (codes "true") }
      else a in
    if bytes_eq action_name (codes "setPresetTemperature")
    then record b { temperature = atoi action_name }
    else b

module _ {I W : Type 0} where
  abbrev pub unless_false : Run (Context I W) Bool → Run (Context I W) Bool → Run (Context I W) Bool
  unless_false m k = do written ← m; if written then k else pure false

  -- The loop over the lines of the file, on fuel.
  unfoldable pub write_lines : Writer I W → ℕ → Bytes → Run (Context I W) Bool
  write_lines writer zero bs = λ c. unfinished
  write_lines writer (suc fuel) [] = pure true
  write_lines writer (suc fuel) (b ∷ bs) =
      let (line, rest) = fgets 255 (b ∷ bs) in
      unless_false (writer (c_text line)) (write_lines writer fuel rest)

  unfoldable pub write_all : Writer I W → List Bytes → Run (Context I W) Bool
  write_all writer [] = pure true
  write_all writer (text ∷ texts) = unless_false (writer text) (write_all writer texts)

module _ {O : Type 0} (platform : Platform O) where
  -- The out parameter is `air_conditioner`, which is written even where the call fails to unlock.
  unfoldable pub prv_get_air_conditioner_info :
      AirConditioner → Process O → Bool × AirConditioner × Process O
  prv_get_air_conditioner_info air_conditioner w =
      let (r, o) = platform.pthread_mutex_lock w.others in
      if nonzero r
      then (false, air_conditioner, record w { others = o })
      else let (r', o') = platform.pthread_mutex_unlock o in
        (not (nonzero r'), w.m_air_conditioner, record w { others = o' })

  unfoldable pub prv_set_air_conditioner_info : AirConditioner → Process O → Bool × Process O
  prv_set_air_conditioner_info air_conditioner w =
      let (r, o) = platform.pthread_mutex_lock w.others in
      if nonzero r
      then (false, record w { others = o })
      else let (r', o') = platform.pthread_mutex_unlock o in
        (not (nonzero r'), record { m_air_conditioner = air_conditioner; others = o' })

  -- Lines 70 to 86.
  abbrev pub change : Bytes → Bytes → Bytes → Process O → Bool × Bytes × Process O
  change action_name action_params error w =
      let (got, a, w') = prv_get_air_conditioner_info zeroed_air_conditioner w in
      if got
      then (let (was_set, w'') =
            prv_set_air_conditioner_info (changed action_name action_params a) w' in
          (was_set, error, w''))
      else (false, put_text (codes "fail to lock.") error, w')

  unfoldable pub action_handler : ActionHandler (Process O)
  unfolding prv_get_air_conditioner_info prv_set_air_conditioner_info
  action_handler alias action_name action_params error w =
      if not (bytes_eq alias (codes "AirConditionerAlias"))
        && not (bytes_eq alias (codes "HumidityAlias"))
      then (false, put_text (take emessage_size (codes "invalid alias: " ++ alias)) error, w)
      else change action_name action_params error w

  abbrev pub state_parts : AirConditioner → List Bytes
  state_parts a =
      codes "{\"AirConditionerAlias\":"
      ∷ codes "{\"power\":"
      ∷ (if platform.is_kii_json_true a.power then codes "true," else codes "false,")
      ∷ codes "\"currentTemperature\":"
      ∷ (signed_decimal a.temperature ++ codes "}")
      ∷ codes "}"
      ∷ []

  module _ {I : Type 0} where
    -- The calls of the writer where there is no file.
    unfoldable pub write_state : Writer I (Process O) → Run (Context I (Process O)) Bool
    unfolding prv_get_air_conditioner_info
    write_state writer c =
        let (got, a, w) = prv_get_air_conditioner_info zeroed_air_conditioner c.world in
        (if got then write_all writer (state_parts a) else pure false) (record c { world = w })

    -- A file of n bytes has n lines at most.
    unfoldable pub state_handler : StateHandler I (Process O)
    unfolding write_lines write_state
    state_handler writer c = elim (platform.state_file c.world.others) [
      | some bs ↦ write_lines writer (suc (length bs)) bs c
      | none ↦ write_state writer c
    ]

    -- KII_TRUE makes the SDK skip the message.
    unfoldable pub custom_push_handler : Bytes → ℕ → Run (Context I (Process O)) Bool
    custom_push_handler message message_length = pure (
        not (
          starts_with (codes "{\"commandID\"") message
          || starts_with (codes "{\"Item\":\"CheckNoError\"") message))
