-- ===== src/Lifecycle/States.antt =====
-- The states that the operations lead to.
use thing_if_thing_sdk.Prelude.{
  Bool, true, Bytes, List, [], ◌∷◌, Option, if◌then◌else◌, ◌≡◌, ◌≢◌, arith, ℕ,
}
use thing_if_thing_sdk.Flow.{Ensures, Ensures-continue}
use thing_if_thing_sdk.Kii.{Sdk}
use thing_if_thing_sdk.Thing.{ThingState, Host, initialized, onboarded, started}
use thing_if_thing_sdk.Init.{prv_init_kii_thing_if, init_kii_thing_if}
use thing_if_thing_sdk.Onboard.{
  OnboardOptions, onboard_with_vendor_thing_id, onboard_with_thing_id,
  init_kii_thing_if_with_onboarded_thing,
}
use thing_if_thing_sdk.Attributes.{
  get_firmware_version, update_firmware_version, get_thing_type, update_thing_type,
}
use thing_if_thing_sdk.Lifecycle.{
  Operation, init, init_onboarded, onboard_vendor, onboard_thing, start_thing, get_version,
  update_version, get_type, update_type, start, perform, perform_all, InitArguments, succeeds,
}

-- The state machine of an instance: the state after an operation that returned `ok`.
abbrev pub next_state : {I W : Type 0} → Operation I W → Bool → ThingState → ThingState
next_state (init a) ok s = initialized
next_state (init_onboarded a thing_id access_token) ok s = if ok then onboarded else initialized
next_state (onboard_vendor id password options) ok s = if ok then onboarded else s
next_state (onboard_thing id password options) ok s = if ok then onboarded else s
next_state start_thing ok s = s
next_state (get_version text size) ok s = s
next_state (update_version version) ok s = s
next_state (get_type text size) ok s = s
next_state (update_type thing_type) ok s = s

-- The state in which an operation can succeed at all.
abbrev pub MaySucceed : {I W : Type 0} → Operation I W → ThingState → Type 0
MaySucceed (init a) s = Unit
MaySucceed (init_onboarded a thing_id access_token) s = Unit
MaySucceed (onboard_vendor id password options) s = s ≢ started
MaySucceed (onboard_thing id password options) s = s ≢ started
MaySucceed start_thing s = s ≡ onboarded
MaySucceed (get_version text size) s = s ≡ onboarded
MaySucceed (update_version version) s = s ≡ onboarded
MaySucceed (get_type text size) s = s ≡ onboarded
MaySucceed (update_type thing_type) s = s ≡ onboarded

module _ {I W : Type 0} (sdk : Sdk I W) where
  -- What holds of the state after an operation from a host in state `s`.
  abbrev pub Follows : Operation I W → ThingState → Bool → Host I W → Type 0
  Follows op s ok h = (h.thing.state ≡ next_state op ok s) × (ok ≡ true → MaySucceed op s)

  start-Follows : (h : Host I W) → Ensures (Follows start_thing h.thing.state) (start sdk h)
  unfolding start
  start-Follows h = ground arith

  get_version-Follows :
      (text : Bytes) (size : ℕ) (h : Host I W)
      → Ensures
          (Follows (get_version text size) h.thing.state)
          (succeeds sdk (get_firmware_version sdk text size) h)
  unfolding get_firmware_version
  get_version-Follows text size h = ground arith

  get_type-Follows :
      (text : Bytes) (size : ℕ) (h : Host I W)
      → Ensures
          (Follows (get_type text size) h.thing.state)
          (succeeds sdk (get_thing_type sdk text size) h)
  unfolding get_thing_type
  get_type-Follows text size h = ground arith

  update_version-Follows :
      (version : Option Bytes) (h : Host I W)
      → Ensures
          (Follows (update_version version) h.thing.state)
          (update_firmware_version sdk version h)
  unfolding update_firmware_version
  update_version-Follows version h = ground arith

  update_type-Follows :
      (thing_type : Option Bytes) (h : Host I W)
      → Ensures
          (Follows (update_type thing_type) h.thing.state)
          (update_thing_type sdk thing_type h)
  unfolding update_thing_type
  update_type-Follows thing_type h = ground arith

  module _ (id password : Option Bytes) (options : OnboardOptions) (h : Host I W) where
    onboard_vendor-Follows :
        Ensures
          (Follows (onboard_vendor id password options) h.thing.state)
          (onboard_with_vendor_thing_id sdk id password options h)
    unfolding onboard_with_vendor_thing_id
    onboard_vendor-Follows = ground arith

    onboard_thing-Follows :
        Ensures
          (Follows (onboard_thing id password options) h.thing.state)
          (onboard_with_thing_id sdk id password options h)
    unfolding onboard_with_thing_id
    onboard_thing-Follows = ground arith

  init-Follows :
      (a : InitArguments I W) (h : Host I W)
      → Ensures (Follows (init a) h.thing.state) (perform sdk (init a) h)
  unfolding perform init_kii_thing_if prv_init_kii_thing_if
  init-Follows a h = ground arith

  init_onboarded-Follows :
      (a : InitArguments I W) (thing_id access_token : Bytes) (h : Host I W)
      → Ensures
          (Follows (init_onboarded a thing_id access_token) h.thing.state)
          (perform sdk (init_onboarded a thing_id access_token) h)
  unfolding perform init_kii_thing_if_with_onboarded_thing prv_init_kii_thing_if
  init_onboarded-Follows a thing_id access_token h = ground arith

  -- Whatever the Kii SDK does, an operation that returns moves the state as the state machine says,
  -- and returns KII_TRUE only in a state where the machine lets it.
  pub perform-Follows :
      (op : Operation I W) (h : Host I W) → Ensures (Follows op h.thing.state) (perform sdk op h)
  unfolding perform
  perform-Follows (init a) h = init-Follows a h
  perform-Follows (init_onboarded a thing_id access_token) h =
      init_onboarded-Follows a thing_id access_token h
  perform-Follows (onboard_vendor id password options) h =
      onboard_vendor-Follows id password options h
  perform-Follows (onboard_thing id password options) h =
      onboard_thing-Follows id password options h
  perform-Follows start_thing h = start-Follows h
  perform-Follows (get_version text size) h = get_version-Follows text size h
  perform-Follows (update_version version) h = update_version-Follows version h
  perform-Follows (get_type text size) h = get_type-Follows text size h
  perform-Follows (update_type thing_type) h = update_type-Follows thing_type h

  next_state-ne-started :
      (op : Operation I W) (ok : Bool) {s t : ThingState}
      → t ≡ next_state op ok s
      → s ≢ started
      → t ≢ started
  next_state-ne-started (init a) ok e h = ground arith
  next_state-ne-started _ ok e h = ground arith

  perform_all-ne-started :
      (ops : List (Operation I W)) (h : Host I W)
      → h.thing.state ≢ started
      → Ensures (λ _ h'. h'.thing.state ≢ started) (perform_all sdk ops h)
  unfolding perform_all
  perform_all-ne-started [] h n = n
  perform_all-ne-started (op ∷ ops) h n =
      Ensures-continue (Follows op h.thing.state) _ (λ _. perform_all sdk ops) (perform sdk op h)
        (perform-Follows op h)
        (λ ok t f. perform_all-ne-started ops t (next_state-ne-started op ok f.0 n))

  -- An instance that is first initialised is never in the state KII_THING_IF_STATE_STARTED,
  -- whatever is called of it afterwards.
  pub never_started :
      (a : InitArguments I W) (ops : List (Operation I W)) (h : Host I W)
      → Ensures (λ _ h'. h'.thing.state ≢ started) (perform_all sdk (init a ∷ ops) h)
  unfolding perform_all
  never_started a ops h =
      Ensures-continue (Follows (init a) h.thing.state) _ (λ _. perform_all sdk ops)
        (perform sdk (init a) h) (perform-Follows (init a) h)
        (λ ok t f. perform_all-ne-started ops t (ground (arith, f.0)))
