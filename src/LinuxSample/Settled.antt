-- ===== src/LinuxSample/Settled.antt =====
-- What one call of the sample's action handler, and the calls of a whole command, ask for and do.
use thing_if_thing_sdk.Prelude.{
  Bool, true, false, Bytes, codes, pos, bytes_eq, List, [], ◌∷◌, ◌++◌, Option, none, some, ◌&&◌,
  ◌||◌, ◌≡◌, refl, Bool-cases, inl, inr, if◌then◌else◌, ◌∙◌, ap, sym, arith,
}
use mathlib.Core.Bool.{true≢false}
use thing_if_thing_sdk.Command.Actions.Loop.{Action}
use thing_if_thing_sdk.Command.Aliases.{Alias}
use thing_if_thing_sdk.LinuxSample.{
  AirConditioner, Process, Platform, changed, action_handler, atoi,
}
use thing_if_thing_sdk.LinuxSample.Locks.{Working}
use thing_if_thing_sdk.LinuxSample.Actions.{
  AnswersWith, known, action_handler_known, action_handler_unknown,
}

-- One call of the action handler: alias, action name and parameters.
pub record Call : Type 0 where
  pub alias : Bytes
  pub name : Bytes
  pub params : Bytes

abbrev pub calls_of : Bytes → List Action → List Call
calls_of alias [] = []
calls_of alias (a ∷ more) =
    record { alias = alias; name = a.name; params = a.value } ∷ calls_of alias more

-- The calls of a command in order.
abbrev pub calls : List Alias → List Call
calls [] = []
calls (a ∷ more) = calls_of a.name a.actions ++ calls more

-- What a call asks for: to turn the power on or off, or to set the temperature.
abbrev pub power_asked : Call → Option Bool
power_asked call =
    if known call.alias && bytes_eq call.name (codes "turnPower")
    then some (bytes_eq call.params (codes "true"))
    else none

abbrev pub asks_temperature : Call → Bool
asks_temperature call = known call.alias && bytes_eq call.name (codes "setPresetTemperature")

abbrev pub or_else : {A : Type 0} → Option A → Option A → Option A
or_else (some a) b = some a
or_else none b = b

-- The last thing that the calls ask of the power.
abbrev pub last_power : List Call → Option Bool
last_power [] = none
last_power (call ∷ more) = or_else (last_power more) (power_asked call)

abbrev pub any_temperature : List Call → Bool
any_temperature [] = false
any_temperature (call ∷ more) = asks_temperature call || any_temperature more

abbrev pub or_old : {A : Type 0} → Option A → A → A
or_old (some a) old = a
or_old none old = old

-- The air conditioner once all calls were made: the power that was asked for last, and zero for the
-- temperature if any call set it.
abbrev pub settled : List Call → AirConditioner → AirConditioner
settled cs a = record {
  power = or_old (last_power cs) a.power;
  temperature = if any_temperature cs then pos 0 else a.temperature;
}

pub settled-cons :
    (call : Call) (cs : List Call) (a : AirConditioner)
    → settled (call ∷ cs) a ≡ settled cs (settled (call ∷ []) a)
settled-cons call cs a = ground arith

pub settled-append :
    (xs ys : List Call) (a : AirConditioner) → settled (xs ++ ys) a ≡ settled ys (settled xs a)
settled-append [] ys a = refl
settled-append (x ∷ xs) ys a =
    settled-cons x (xs ++ ys) a
    ∙ settled-append xs ys (settled (x ∷ []) a)
    ∙ ap (settled ys) (sym (settled-cons x xs a))

bytes_eq_sound : (xs ys : Bytes) → bytes_eq xs ys ≡ true → xs ≡ ys
bytes_eq_sound [] [] h = refl
bytes_eq_sound [] (y ∷ ys) h = absurd (true≢false (sym h))
bytes_eq_sound (x ∷ xs) [] h = absurd (true≢false (sym h))
bytes_eq_sound (x ∷ xs) (y ∷ ys) h = grind (arith, bytes_eq_sound xs ys)

atoi-name : (name : Bytes) → bytes_eq name (codes "setPresetTemperature") ≡ true → atoi name ≡ pos 0
unfolding atoi
atoi-name name h = rw (bytes_eq_sound name (codes "setPresetTemperature") h) refl

changed-settled :
    (alias name params : Bytes) (a : AirConditioner)
    → known alias ≡ true
    → changed name params a
      ≡ settled (record { alias = alias; name = name; params = params } ∷ []) a
changed-settled alias name params a h =
    elim (Bool-cases (bytes_eq name (codes "setPresetTemperature"))) [
      | inl e ↦ elim (Bool-cases (bytes_eq name (codes "turnPower"))) [
        | inl p ↦ rw (h, p, e, atoi-name name e) refl
        | inr p ↦ rw (h, p, e, atoi-name name e) refl
      ]
      | inr e ↦ elim (Bool-cases (bytes_eq name (codes "turnPower"))) [
        | inl p ↦ rw (h, p, e) refl
        | inr p ↦ rw (h, p, e) refl
      ]
    ]

same_settled :
    (alias name params : Bytes) (a : AirConditioner)
    → known alias ≡ false
    → settled (record { alias = alias; name = name; params = params } ∷ []) a ≡ a
same_settled alias name params a h = rw h refl

-- What the handler answers to a call, with the array and the air conditioner that it leaves.
abbrev pub CallAnswers : Call → Bytes → AirConditioner → Bool × Bytes × AirConditioner → Type 0
CallAnswers call error a r = AnswersWith (settled (call ∷ []) a) error a r

module _ {O : Type 0} (platform : Platform O) where
  -- One action changes the air conditioner as its call asks.
  pub handler-settled :
      (working : Working platform) (alias name params error : Bytes) (w : Process O)
      → (action_handler platform alias name params error w).2.m_air_conditioner
        ≡ settled (record { alias = alias; name = name; params = params } ∷ []) w.m_air_conditioner
  handler-settled working alias name params error w = elim (Bool-cases (known alias)) [
    | inl h ↦
        ap (λ r. r.2.m_air_conditioner)
          (action_handler_known platform working alias name params error w h)
        ∙ changed-settled alias name params w.m_air_conditioner h
    | inr h ↦
        ap (λ r. r.2.m_air_conditioner)
          (action_handler_unknown platform alias name params error w h)
        ∙ sym (same_settled alias name params w.m_air_conditioner h)
  ]
