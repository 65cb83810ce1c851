-- ===== src/LinuxSample/Actions.antt =====
-- The action handler of the sample on every branch.
use thing_if_thing_sdk.Prelude.{
  Bool, true, false, Bytes, codes, take, bytes_eq, ◌++◌, [], ◌∷◌, ◌||◌, some, ◌≡◌, ◌⊎◌, inl, inr,
  refl, Bool-cases, arith, ◌==◌, ◌∙◌,
}
use mathlib.Core.Bool.{true≢false}
use thing_if_thing_sdk.Thing.{emessage_size}
use thing_if_thing_sdk.Command.Memory.{until_nul}
use thing_if_thing_sdk.LinuxSample.{
  AirConditioner, Process, Platform, prv_get_air_conditioner_info, prv_set_air_conditioner_info,
  zeroed_air_conditioner, changed, change, action_handler, put_text,
}
use thing_if_thing_sdk.LinuxSample.Locks.{
  Working, released, prv_get_air_conditioner_info_lem, prv_set_air_conditioner_info_lem,
}

-- The aliases that the handler takes.
abbrev pub known : Bytes → Bool
known alias = bytes_eq alias (codes "AirConditionerAlias") || bytes_eq alias (codes "HumidityAlias")

-- An array that starts with a C string.
abbrev pub IsText : Bytes → Type 0
IsText error = (text : Bytes) × (until_nul error ≡ some text)

append-IsText : (text rest : Bytes) → IsText (text ++ 0 ∷ rest)
append-IsText [] rest = ([], refl)
append-IsText (b ∷ text) rest =
    let (t, e) = append-IsText text rest in
    elim (Bool-cases (b == 0)) [
      | inl nul ↦ ([], rw nul refl)
      | inr other ↦ (b ∷ t, rw (other, e) refl)
    ]

pub put_text-IsText : (text array : Bytes) → IsText (put_text text array)
put_text-IsText text array = append-IsText text _

-- The handler's answer, with the array and the air conditioner that it leaves, where a success makes
-- the air conditioner `wanted`.
abbrev pub AnswersWith :
    AirConditioner → Bytes → AirConditioner → Bool × Bytes × AirConditioner → Type 0
AnswersWith wanted error a (true, error', a') = (error' ≡ error) × (a' ≡ wanted)
AnswersWith wanted error a (false, error', a') =
    (IsText error' × (a' ≡ a)) ⊎ ((error' ≡ error) × ((a' ≡ a) ⊎ (a' ≡ wanted)))

abbrev pub Answers : Bytes → Bytes → Bytes → AirConditioner → Bool × Bytes × AirConditioner → Type 0
Answers name params error a r = AnswersWith (changed name params a) error a r

module _ {O : Type 0} (platform : Platform O) where
  change-Answers :
      (name params error : Bytes) (w : Process O)
      → let (ok, error', w') = change platform name params error w in
        Answers name params error w.m_air_conditioner (ok, error', w'.m_air_conditioner)
  unfolding prv_get_air_conditioner_info prv_set_air_conditioner_info
  change-Answers name params error w = ground (arith, put_text-IsText (codes "fail to lock.") error)

  -- Whatever the calls of the mutex return: a success leaves the array for the error message alone and
  -- changes the air conditioner as the action's name and parameters say. A failure either leaves a
  -- message and the air conditioner as it was, or, where a call of the mutex failed while the air
  -- conditioner was being set, leaves the array alone.
  pub action_handler-Answers :
      (alias name params error : Bytes) (w : Process O)
      → let (ok, error', w') = action_handler platform alias name params error w in
        Answers name params error w.m_air_conditioner (ok, error', w'.m_air_conditioner)
        × (ok ≡ true → known alias ≡ true)
  unfolding action_handler
  action_handler-Answers alias name params error w =
      elim (Bool-cases (bytes_eq alias (codes "AirConditionerAlias"))) [
        | inl e ↦ rw e (change-Answers name params error w, λ _. refl)
        | inr e ↦ elim (Bool-cases (bytes_eq alias (codes "HumidityAlias"))) [
          | inl e' ↦ rw (e, e') (change-Answers name params error w, λ _. refl)
          | inr e' ↦
              rw (e, e')
                (
                  inl (
                    put_text-IsText (take emessage_size (codes "invalid alias: " ++ alias)) error,
                    refl,
                  ),
                  λ h. h,
                )
        ]
      ]

  action_handler-change :
      (alias name params error : Bytes) (w : Process O)
      → known alias ≡ true
      → action_handler platform alias name params error w ≡ change platform name params error w
  unfolding action_handler
  action_handler-change alias name params error w h =
      elim (Bool-cases (bytes_eq alias (codes "AirConditionerAlias"))) [
        | inl e ↦ rw e refl
        | inr e ↦ rw (e, rw e at h) refl
      ]

  module _ (working : Working platform) where
    -- With a working mutex, an action of a known alias succeeds, and the mutex is free.
    pub action_handler_known :
        (alias name params error : Bytes) (w : Process O)
        → known alias ≡ true
        → action_handler platform alias name params error w ≡ (
          true,
          error,
          record {
            m_air_conditioner = changed name params w.m_air_conditioner;
            others = released platform (released platform w.others);
          },
        )
    action_handler_known alias name params error w h =
        action_handler-change alias name params error w h
        ∙ rw
            (
              prv_get_air_conditioner_info_lem platform working zeroed_air_conditioner w,
              prv_set_air_conditioner_info_lem platform working
                  (changed name params w.m_air_conditioner)
                  (record w { others = released platform w.others }),
            )
            refl

  pub action_handler_unknown :
      (alias name params error : Bytes) (w : Process O)
      → known alias ≡ false
      → action_handler platform alias name params error w
        ≡ (false, put_text (take emessage_size (codes "invalid alias: " ++ alias)) error, w)
  unfolding action_handler
  action_handler_unknown alias name params error w h =
      elim (Bool-cases (bytes_eq alias (codes "AirConditionerAlias"))) [
        | inl e ↦ absurd (true≢false (rw e at h))
        | inr e ↦ rw (e, rw e at h) refl
      ]
