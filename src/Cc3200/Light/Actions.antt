-- ===== src/Cc3200/Light/Actions.antt =====
-- The action handler of the smart light on every branch.
use thing_if_thing_sdk.Prelude.{
  Bool, true, false, Bytes, codes, length, ◌<◌, ◌≤◌, bytes_eq, ℤ, pos, int_eq, List, [], ◌∷◌, ◌++◌,
  Option, none, some, not, ◌&&◌, ◌≡◌, inl, inr, refl, arith, Bool-cases, if◌then◌else◌,
  lt→leb_false, le→leb, suc,
}
use thing_if_thing_sdk.Flow.{done, fault, Returns}
use mathlib.Core.Path.{subst}
use thing_if_thing_sdk.Thing.{emessage_size}
use thing_if_thing_sdk.LinuxSample.{put_text, signed_decimal}
use thing_if_thing_sdk.Cc3200.Light.{
  prv_json_read_object, FieldType, field_boolean, field_integer, Value, value_at, Light, Board,
  Firmware, Change, change_of, prv_get_smartlight_info, prv_set_smartlight_info, choose, handle,
  action_handler, zeroed_light,
}

-- The light that a change makes with the parameters, if they have its fields.
abbrev pub wanted : {O : Type 0} → Firmware O → Option Change → Bytes → Bytes → Light → Option Light
wanted firmware none params error l = none
wanted firmware (some change) params error l =
    let (parsed, values, error') =
      prv_json_read_object firmware params (length params) change.fields error in
    if parsed then some (change.apply values l) else none

-- One action that the smart light knows: its name, the fields of its parameters, and the light that
-- their values ask for.
pub record Known : Type 0 where
  pub name : Bytes
  pub fields : List (Bytes × FieldType)
  pub light : List Value → Light → Light

abbrev pub the_actions : List Known
the_actions =
    record {
      name = codes "turnPower";
      fields = (codes "/power", field_boolean) ∷ [];
      light = λ vs l. record {
        power = (value_at 0 vs).boolean_value;
        brightness = l.brightness;
        color_0 = l.color_0;
        color_1 = l.color_1;
        color_2 = l.color_2;
        color_temperature = l.color_temperature;
      };
    }
    ∷ record {
      name = codes "setBrightness";
      fields = (codes "/brightness", field_integer) ∷ [];
      light = λ vs l. record {
        power = l.power;
        brightness = (value_at 0 vs).int_value;
        color_0 = l.color_0;
        color_1 = l.color_1;
        color_2 = l.color_2;
        color_temperature = l.color_temperature;
      };
    }
    ∷ record {
      name = codes "setColor";
      fields =
          (codes "/color/[0]", field_integer)
          ∷ (codes "/color/[1]", field_integer)
          ∷ (codes "/color/[2]", field_integer)
          ∷ [];
      light = λ vs l. record {
        power = l.power;
        brightness = l.brightness;
        color_0 = (value_at 0 vs).int_value;
        color_1 = (value_at 1 vs).int_value;
        color_2 = (value_at 2 vs).int_value;
        color_temperature = l.color_temperature;
      };
    }
    ∷ record {
      name = codes "setColorTemperature";
      fields = (codes "/colorTemperature", field_integer) ∷ [];
      light = λ vs l. record {
        power = l.power;
        brightness = l.brightness;
        color_0 = l.color_0;
        color_1 = l.color_1;
        color_2 = l.color_2;
        color_temperature = (value_at 0 vs).int_value;
      };
    }
    ∷ []

-- The light that one of these actions asks for, if it is among them and its parameters have its
-- fields.
abbrev pub asked_of :
    {O : Type 0} → Firmware O → List Known → Bytes → Bytes → Bytes → Light → Option Light
asked_of firmware [] name params error l = none
asked_of firmware (action ∷ more) name params error l =
    let rest = asked_of firmware more name params error l in
    let (parsed, values, error') =
      firmware.kii_json_read_object params (length params) action.fields error 51 in
    if bytes_eq name action.name
    then (if parsed then some (action.light values l) else none)
    else rest

abbrev pub asked : {O : Type 0} → Firmware O → Bytes → Bytes → Bytes → Light → Option Light
asked firmware name params error l = asked_of firmware the_actions name params error l

asked-wanted :
    {O : Type 0} (firmware : Firmware O) (name params error : Bytes) (l : Light)
    → wanted firmware (change_of name) params error l ≡ asked firmware name params error l
asked-wanted firmware name params error l = elim (Bool-cases (bytes_eq name (codes "turnPower"))) [
  | inl e ↦ rw e refl
  | inr e ↦ rw e (elim (Bool-cases (bytes_eq name (codes "setBrightness"))) [
    | inl e' ↦ rw e' refl
    | inr e' ↦ rw e' (elim (Bool-cases (bytes_eq name (codes "setColor"))) [
      | inl e2 ↦ rw e2 refl
      | inr e2 ↦ rw e2 (elim (Bool-cases (bytes_eq name (codes "setColorTemperature"))) [
        | inl e3 ↦ rw e3 refl
        | inr e3 ↦ rw e3 refl
      ])
    ])
  ])
]

module _ {O : Type 0} (firmware : Firmware O) where
  -- What the operating system documents of the lock: both calls return OSI_OK, which is 0.
  pub record Working : Type 0 where
    pub ok_zero : firmware.osi_ok ≡ pos 0
    pub locks : (o : O) → (firmware.osi_lock_obj_lock o).0 ≡ pos 0
    pub unlocks : (o : O) → (firmware.osi_lock_obj_unlock o).0 ≡ pos 0

  -- The result and the light for what was asked.
  abbrev pub Obeys : Light → Option Light → Bool × Bytes → Board O → Type 0
  Obeys l (some l') answer b = (answer.0 ≡ true) × (b.m_smartlight ≡ l')
  Obeys l none answer b = (answer.0 ≡ false) × (b.m_smartlight ≡ l)

  -- The operating system after one access to the light.
  abbrev pub unlocked : O → O
  unlocked o = (firmware.osi_lock_obj_unlock (firmware.osi_lock_obj_lock o).1).1

  -- The message of a wrong schema.
  abbrev pub invalid : Bytes → ℤ → Bytes
  invalid schema version =
      codes "invalid schema: " ++ (schema ++ (codes " " ++ signed_decimal version))

  -- A schema is refused only where its name and its version are both wrong.
  abbrev pub wrong : Bytes → ℤ → Bool
  wrong schema version =
      not (bytes_eq schema (codes "SmartLightDemo")) && not (int_eq version (pos 1))

  module _ (working : Working) where
    pub prv_get_smartlight_info_lem :
        (l : Light) (b : Board O)
        → prv_get_smartlight_info firmware l b
          ≡ (true, b.m_smartlight, record b { others = unlocked b.others })
    unfolding prv_get_smartlight_info
    prv_get_smartlight_info_lem l b =
        rw
          (
            working.locks b.others,
            working.ok_zero,
            working.unlocks (firmware.osi_lock_obj_lock b.others).1,
          )
          refl

    pub prv_set_smartlight_info_lem :
        (l : Light) (b : Board O)
        → prv_set_smartlight_info firmware l b
          ≡ (true, record { m_smartlight = l; others = unlocked b.others })
    unfolding prv_set_smartlight_info
    prv_set_smartlight_info_lem l b =
        rw
          (
            working.locks b.others,
            working.ok_zero,
            working.unlocks (firmware.osi_lock_obj_lock b.others).1,
          )
          refl

    choose-Obeys :
        (change : Option Change) (params error : Bytes) (b : Board O)
        → Returns
            (Obeys b.m_smartlight (wanted firmware change params error b.m_smartlight))
            (choose firmware change params b.m_smartlight error b)
    choose-Obeys none params error b = (refl, refl)
    choose-Obeys (some change) params error b =
        let (parsed, values, error') =
          prv_json_read_object firmware params (length params) change.fields error in
        elim (Bool-cases parsed) [
          | inl e ↦
              rw (e, prv_set_smartlight_info_lem (change.apply values b.m_smartlight) b)
                (refl, refl)
          | inr e ↦ rw e (refl, refl)
        ]

    handle-Obeys :
        (name params error : Bytes) (b : Board O)
        → Returns
            (Obeys b.m_smartlight (wanted firmware (change_of name) params error b.m_smartlight))
            (handle firmware name params error b)
    handle-Obeys name params error b =
        rw (prv_get_smartlight_info_lem zeroed_light b)
          (choose-Obeys (change_of name) params error (record b { others = unlocked b.others }))

    -- With a working lock, a schema whose name or version is right is taken: one of the four
    -- actions whose parameters have its fields succeeds, and the light has their values; any other fails and leaves the
    -- light as it was. A schema whose name and version are both wrong fails with a message and leaves
    -- the board as it was, or, where the message is longer than the array, is written beyond it.
    pub action_handler-Obeys :
        (schema : Bytes) (version : ℤ) (name params error : Bytes) (b : Board O)
        → (wrong schema version ≡ false
            → Returns
                (Obeys b.m_smartlight (asked firmware name params error b.m_smartlight))
                (action_handler firmware schema version name params error b))
          × (wrong schema version ≡ true
              → length (invalid schema version) ≤ emessage_size
              → action_handler firmware schema version name params error b
                ≡ done (false, put_text (invalid schema version) error) b)
          × (wrong schema version ≡ true
              → emessage_size < length (invalid schema version)
              → action_handler firmware schema version name params error b ≡ fault)
    unfolding action_handler
    action_handler-Obeys schema version name params error b = (
      λ right.
          rw (right, action_handler)
            (subst
              (λ light. Returns (Obeys b.m_smartlight light) (handle firmware name params error b))
              (asked-wanted firmware name params error b.m_smartlight)
              (handle-Obeys name params error b)),
      λ both h.
          rw
            (
              both,
              lt→leb_false (suc emessage_size) (length (invalid schema version)) (omega arith),
              action_handler,
            )
            refl,
      λ both h.
          rw (both, le→leb (suc emessage_size) (length (invalid schema version)) h, action_handler)
            refl,
    )
