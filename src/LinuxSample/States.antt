-- ===== src/LinuxSample/States.antt =====
-- What the state handler of the sample tells the server, and what can be read of it.
use thing_if_thing_sdk.Prelude.{
  Bool, true, false, Bytes, codes, length, ◌≤◌, ◌<◌, ℤ, suc, [], ◌∷◌, ◌++◌, Option, none, some, ◌≡◌,
  refl, sym, Bool-cases, inl, inr, arith, append_assoc, append-nil, ◌==◌, if◌then◌else◌,
}
use thing_if_thing_sdk.Flow.{Returns}
use thing_if_thing_sdk.Kii.{Sdk}
use thing_if_thing_sdk.Context.{Context}
use thing_if_thing_sdk.Request.{prv_writer}
use thing_if_thing_sdk.Request.Writes.{Buffering}
use thing_if_thing_sdk.Request.Objects.{json_object}
use mathlib.Core.Path.{subst}
use thing_if_thing_sdk.Command.Memory.Access.{NoNul}
use thing_if_thing_sdk.LinuxSample.{
  AirConditioner, Process, Platform, atoi, write_lines, write_all, write_state, state_handler,
  state_parts, signed_decimal, zeroed_air_conditioner,
}
use thing_if_thing_sdk.LinuxSample.Locks.{Working, released, prv_get_air_conditioner_info_lem}
use thing_if_thing_sdk.LinuxSample.Numbers.{InRange, atoi-signed_decimal}
use thing_if_thing_sdk.LinuxSample.Reports.{
  joined, Wrote, Refused, write_all-Wrote, write_all-Refused, write_lines-Wrote,
  write_lines-Refused,
}

-- What the thing interaction server may be told: the text that the handler writes if there is no
-- file, and a reading of such a text.
abbrev pub head_on : Bytes
head_on = codes "{\"AirConditionerAlias\":{\"power\":true,\"currentTemperature\":"

abbrev pub head_off : Bytes
head_off = codes "{\"AirConditionerAlias\":{\"power\":false,\"currentTemperature\":"

-- The text behind a prefix.
abbrev pub behind : Bytes → Bytes → Option Bytes
behind [] bs = some bs
behind (p ∷ ps) [] = none
behind (p ∷ ps) (b ∷ bs) = let more = behind ps bs in if p == b then more else none

abbrev pub read_state : Bytes → Option AirConditioner
read_state bs = elim (behind head_on bs) [
  | some number ↦ some (record { power = true; temperature = atoi number })
  | none ↦ elim (behind head_off bs) [
    | some number ↦ some (record { power = false; temperature = atoi number })
    | none ↦ none
  ]
]

module _ {O : Type 0} (platform : Platform O) where
  -- A state as one object: the alias with an object of the power and the temperature in decimal.
  abbrev pub state_text : AirConditioner → Bytes
  state_text a = json_object (
      (
        codes "AirConditionerAlias",
        false,
        json_object (
            (
              codes "power",
              false,
              if platform.is_kii_json_true a.power then codes "true" else codes "false",
            )
            ∷ (codes "currentTemperature", false, signed_decimal a.temperature)
            ∷ []),
      )
      ∷ [])

  state_parts-text : (a : AirConditioner) → joined (state_parts platform a) ≡ state_text a
  state_parts-text a = elim (Bool-cases (platform.is_kii_json_true a.power)) [
    | inl e ↦ rw e (simp (append_assoc, append-nil))
    | inr e ↦ rw e (simp (append_assoc, append-nil))
  ]

  -- The text of a report: the file's, or the state.
  abbrev pub text_of : Option Bytes → AirConditioner → Bytes
  text_of (some bs) a = bs
  text_of none a = state_text a

  -- The file, if there is one, has no NUL.
  abbrev pub Plain : Option Bytes → Type 0
  Plain (some bs) = NoNul bs
  Plain none = Unit

  -- The surroundings after a report: without a file, the mutex was taken and released.
  abbrev pub others_after : Option Bytes → O → O
  others_after (some bs) o = o
  others_after none o = released platform o

  abbrev pub after_report :
      {I : Type 0} → Option Bytes → Context I (Process O) → Context I (Process O)
  after_report file c = record c {
    world = record c.world { others = others_after file c.world.others };
  }

  state_parts-read :
      ((b : Bool) → platform.is_kii_json_true b ≡ b)
      → (power : Bool) (temperature : ℤ) → InRange temperature
      → let a : AirConditioner = record { power = power; temperature = temperature } in
        read_state (joined (state_parts platform a)) ≡ some a
  state_parts-read constants true z h =
      rw (constants true, append_assoc, append-nil)
        (rw (atoi-signed_decimal z (codes "}}") h refl) refl)
  state_parts-read constants false z h =
      rw (constants false, append_assoc, append-nil)
        (rw (atoi-signed_decimal z (codes "}}") h refl) refl)

  module _ {I : Type 0} (sdk : Sdk I (Process O)) (buffering : Buffering sdk)
      (working : Working platform) (c : Context I (Process O)) where
    handled_file :
        (bs : Bytes)
        → platform.state_file c.world.others ≡ some bs
        → state_handler platform (prv_writer sdk) c
          ≡ write_lines (prv_writer sdk) (suc (length bs)) bs c
    unfolding state_handler
    handled_file bs e = rw (e, state_handler) refl

    handled_state :
        platform.state_file c.world.others ≡ none
        → state_handler platform (prv_writer sdk) c
          ≡ write_all
              (prv_writer sdk)
              (state_parts platform c.world.m_air_conditioner)
              (after_report none c)
    unfolding state_handler write_state
    handled_state e =
        rw (e, state_handler)
          (rw
            (
              prv_get_air_conditioner_info_lem platform working zeroed_air_conditioner c.world,
              write_state,
            )
            refl)

    -- With a working mutex, a text that fits is appended to the request as a whole: the file, if there
    -- is one and it has no NUL, or else one object that holds, under AirConditionerAlias, an object with
    -- the power and the temperature of the air conditioner. One that does not fit makes the handler
    -- fail. The air conditioner is as it was.
    pub state_handler-Reports :
        (file : Option Bytes)
        → platform.state_file c.world.others ≡ file
        → Plain file
        → let text = text_of file c.world.m_air_conditioner in
          let r = state_handler platform (prv_writer sdk) c in
          (length text ≤ buffering.room c.kii.internals
            → Wrote sdk buffering text (after_report file c) r)
          × (buffering.room c.kii.internals < length text
              → Refused sdk buffering (after_report file c) r)
    state_handler-Reports (some bs) e t = rw (handled_file bs e) (
      λ h. write_lines-Wrote sdk buffering (suc (length bs)) bs c (omega arith) t h,
      λ h. write_lines-Refused sdk buffering (suc (length bs)) bs c (omega arith) t h,
    )
    state_handler-Reports none e t =
        let texts = state_parts platform c.world.m_air_conditioner in
        rw (handled_state e) (
          subst
            (λ text.
              (length text ≤ buffering.room c.kii.internals
                → Wrote sdk buffering text (after_report none c)
                    (write_all (prv_writer sdk) texts (after_report none c)))
              × (buffering.room c.kii.internals < length text
                  → Refused sdk buffering (after_report none c)
                      (write_all (prv_writer sdk) texts (after_report none c))))
            (state_parts-text c.world.m_air_conditioner)
            (
              write_all-Wrote sdk buffering texts (after_report none c),
              write_all-Refused sdk buffering texts (after_report none c),
            ))

    -- With a working mutex and without a file, where the temperature is in the range of an int and the
    -- text fits, the handler succeeds, and what it adds to the request reads back as the air
    -- conditioner.
    pub state_handler-read :
        ((b : Bool) → platform.is_kii_json_true b ≡ b)
        → platform.state_file c.world.others ≡ none
        → InRange c.world.m_air_conditioner.temperature
        → length (text_of none c.world.m_air_conditioner) ≤ buffering.room c.kii.internals
        → Returns
            (λ ok t.
              (ok ≡ true)
              × ((text : Bytes) × (buffering.body t.kii.internals
                    ≡ buffering.body c.kii.internals ++ text)
                  × (read_state text ≡ some t.world.m_air_conditioner)))
            (state_handler platform (prv_writer sdk) c)
    state_handler-read constants e in_range h =
        let texts = state_parts platform c.world.m_air_conditioner in
        let wrote = write_all-Wrote sdk buffering texts (after_report none c) (
          subst (λ text. length text ≤ buffering.room c.kii.internals)
            (sym (state_parts-text c.world.m_air_conditioner)) h) in
        rw (handled_state e, wrote.ends)
          (
            refl,
            (
              joined texts,
              wrote.appended.text,
              state_parts-read constants c.world.m_air_conditioner.power
                  c.world.m_air_conditioner.temperature in_range,
            ),
          )
