-- ===== src/LinuxSample/Program/Ready.antt =====
-- When the instance of the Linux sample is ready, and how main makes it so.
use thing_if_thing_sdk.Prelude.{
  Bool, true, false, Bytes, ℕ, Option, none, some, ◌≡◌, refl, if◌then◌else◌, sym,
}
use mathlib.Core.Bool.{true≢false}
use mathlib.Core.Option.{some-ne-none}
use thing_if_thing_sdk.Flow.{Outcome, pure, Ensures, Ensures-continue, Ensures-both, Ensures-weaken}
use thing_if_thing_sdk.Kii.{Sdk}
use thing_if_thing_sdk.Thing.{Host}
use thing_if_thing_sdk.Onboard.Authors.{
  IsOnboarded, onboard-IsOnboarded, init_kii_thing_if_with_onboarded_thing-IsOnboarded,
}
use thing_if_thing_sdk.Lifecycle.{
  Operation, init, init_onboarded, onboard_vendor, onboard_thing, perform,
}
use thing_if_thing_sdk.LinuxSample.{Process, Platform}
use thing_if_thing_sdk.LinuxSample.Program.{
  Surroundings, no_options, init_arguments, with_error, onboarding, init_and_onboard,
  onboard_with_token, onboard_with_password,
}
use thing_if_thing_sdk.LinuxSample.Program.Equipped.{
  Equipped, vendor-Equipped, thing-Equipped, init-Equipped, init_onboarded-Equipped,
}

module _ {I O : Type 0} (sdk : Sdk I (Process O)) (platform : Platform O) where
  -- The instance is onboarded and has the handlers of the sample.
  abbrev pub Ready : Host I (Process O) → Type 0
  Ready h = IsOnboarded sdk h × Equipped platform h.thing

  -- The operation is an onboarding that leaves an equipped instance ready.
  abbrev MakesReady : Option (Operation I (Process O)) → Type 0
  MakesReady none = Unit
  MakesReady (some op) =
      (h : Host I (Process O))
      → Equipped platform h.thing
      → Ensures (λ ok h'. ok ≡ true → Ready h') (perform sdk op h)

  -- Both of two facts about a success.
  both-Ready :
      (r : Outcome (Host I (Process O)) Bool)
      → Ensures (λ ok h'. ok ≡ true → IsOnboarded sdk h') r
      → Ensures (λ ok h'. ok ≡ true → Equipped platform h'.thing) r
      → Ensures (λ ok h'. ok ≡ true → Ready h') r
  both-Ready r a b =
      Ensures-weaken _ (λ ok h'. ok ≡ true → Ready h') r (λ ok h' f e. (f.0 e, f.1 e))
        (Ensures-both (λ ok h'. ok ≡ true → IsOnboarded sdk h')
          (λ ok h'. ok ≡ true → Equipped platform h'.thing) r a b)

  vendor-MakesReady :
      (id password : Bytes)
      → MakesReady (some (onboard_vendor (some id) (some password) no_options))
  unfolding perform
  vendor-MakesReady id password h equipped =
      both-Ready _ (onboard-IsOnboarded sdk (some id) (some password) no_options h).0 (
        Ensures-weaken (λ _ h'. Equipped platform h'.thing) _ _ (λ ok h' f e. f)
          (vendor-Equipped platform sdk (some id) (some password) no_options h equipped))

  thing-MakesReady :
      (id password : Bytes) → MakesReady (some (onboard_thing (some id) (some password) no_options))
  unfolding perform
  thing-MakesReady id password h equipped =
      both-Ready _ (onboard-IsOnboarded sdk (some id) (some password) no_options h).1 (
        Ensures-weaken (λ _ h'. Equipped platform h'.thing) _ _ (λ ok h' f e. f)
          (thing-Equipped platform sdk (some id) (some password) no_options h equipped))

  module _ (around : Surroundings O) where
    pub onboarding-MakesReady :
        (vendor thing password : Option Bytes)
        → MakesReady (onboarding sdk platform around vendor thing password)
    onboarding-MakesReady vendor thing none = tt
    onboarding-MakesReady none none (some password) = tt
    onboarding-MakesReady (some v) (some t) (some password) = tt
    onboarding-MakesReady (some v) none (some password) = vendor-MakesReady v password
    onboarding-MakesReady none (some t) (some password) = thing-MakesReady t password

    -- What is known where main goes on to start.
    abbrev pub Started : Bool → Option ℕ → Host I (Process O) → Type 0
    Started help ended h' = ended ≡ none → help ≡ false → Ready h'

    pub exits : (help : Bool) (status : ℕ) (h : Host I (Process O)) → Started help (some status) h
    exits help status h e _ = absurd (some-ne-none status e)

    decided :
        (ok : Bool) (h : Host I (Process O))
        → (ok ≡ true → Ready h)
        → Started false (if ok then none else some 1) h
    decided true h f e _ = f refl
    decided false h f e n = exits false 1 h e n

    pub onboard_with_token-Started :
        (thing_id access_token : Option Bytes) (h : Host I (Process O))
        → Ensures (Started false) (onboard_with_token sdk platform around thing_id access_token h)
    unfolding onboard_with_token perform
    onboard_with_token-Started none access_token h = exits false 1 h
    onboard_with_token-Started (some t) none h = exits false 1 h
    onboard_with_token-Started (some t) (some a) h =
        let arguments = init_arguments sdk platform around in
        let h0 : Host I (Process O) = record h { error = none } in
        Ensures-continue (λ ok h'. ok ≡ true → Ready h') (Started false) _
          (perform sdk (init_onboarded arguments t a) h0)
          (both-Ready _
            (Ensures-weaken _ (λ ok h'. ok ≡ true → IsOnboarded sdk h') _ (λ ok h' f e. (f e).0)
              (init_kii_thing_if_with_onboarded_thing-IsOnboarded sdk arguments.self
                arguments.app_id arguments.app_key arguments.app_host t a
                arguments.command_handler_resource arguments.state_updater_resource
                arguments.system_cb arguments.resource_cb h0))
            (init_onboarded-Equipped platform sdk around h0 t a))
          decided

    init_and_onboard-Ready :
        (op : Operation I (Process O)) (h : Host I (Process O))
        → MakesReady (some op)
        → Ensures (λ ok h'. ok ≡ true → Ready h') (init_and_onboard sdk platform around op h)
    unfolding init_and_onboard
    init_and_onboard-Ready op h makes =
        let h0 : Host I (Process O) = record h { error = none } in
        Ensures-continue (λ ok h'. ok ≡ true → Equipped platform h'.thing) _ _
          (perform sdk (init (init_arguments sdk platform around)) h0)
          (init-Equipped platform sdk around h0) onboards
      where
        onboards :
            (ok : Bool) (t : Host I (Process O))
            → (ok ≡ true → Equipped platform t.thing)
            → Ensures
                (λ ok' h'. ok' ≡ true → Ready h')
                ((if ok then with_error sdk platform around none op else pure false) t)
        onboards true t f = makes (record t { error = none }) (f refl)
        onboards false t f = λ e. absurd (true≢false (sym e))

    pub onboard_with_password-Started :
        (op : Option (Operation I (Process O))) (h : Host I (Process O))
        → MakesReady op
        → Ensures (Started false) (onboard_with_password sdk platform around op h)
    unfolding onboard_with_password
    onboard_with_password-Started none h makes = exits false 1 h
    onboard_with_password-Started (some op) h makes =
        Ensures-continue (λ ok h'. ok ≡ true → Ready h') (Started false) _
          (init_and_onboard sdk platform around op h) (init_and_onboard-Ready op h makes) decided
