-- ===== src/LinuxSample/Commands.antt =====
-- The sample and the commands of the SDK: what a command makes of the air conditioner.
use thing_if_thing_sdk.Prelude.{
  true, false, Bytes, codes, length, take, ℕ, suc, ◌≤◌, ◌<◌, List, [], ◌∷◌, ◌++◌, none, some, ◌≡◌,
  refl, Bool-cases, inl, inr, ◌∙◌, ap, sym,
}
use mathlib.Core.Path.{subst}
use thing_if_thing_sdk.Flow.{done}
use thing_if_thing_sdk.Kii.{Sdk}
use thing_if_thing_sdk.Context.{Context}
use thing_if_thing_sdk.Thing.{emessage_size}
use thing_if_thing_sdk.Request.Writes.{Buffering}
use thing_if_thing_sdk.Command.{received_callback, open_command}
use thing_if_thing_sdk.Command.Results.{HasMessage}
use thing_if_thing_sdk.Command.Actions.Loop.{Action, Explains, message_in, perform_actions}
use thing_if_thing_sdk.Command.Aliases.{Alias, AliasesAt, rounds, perform_aliases}
use thing_if_thing_sdk.Command.Sent.{ComesBack}
use thing_if_thing_sdk.LinuxSample.Task.{state_handler-Returns}
use thing_if_thing_sdk.Command.Whole.{Sends, received_callback-Sends, results_head, results_tail}
use thing_if_thing_sdk.LinuxSample.{
  Process, Platform, put_text, action_handler, state_handler, custom_push_handler, starts_with,
}
use thing_if_thing_sdk.LinuxSample.Locks.{Working}
use thing_if_thing_sdk.LinuxSample.Actions.{
  known, IsText, put_text-IsText, action_handler_known, action_handler_unknown,
}
use thing_if_thing_sdk.LinuxSample.Settled.{
  calls_of, calls, settled, settled-cons, settled-append, handler-settled,
}

text-HasMessage : (error : Bytes) → IsText error → HasMessage false error (message_in error)
text-HasMessage error (text, e) =
    e ∙ sym (ap (λ found. some (elim found [ none ↦ [] | some t ↦ t ])) e)

-- The state handler of the sample returns, with any Kii SDK.
pub state_handler-comes_back :
    {I O : Type 0} (platform : Platform O) (sdk : Sdk I (Process O))
    → ComesBack sdk (state_handler platform)
state_handler-comes_back platform sdk c =
    state_handler-Returns sdk (λ k. Unit {0})
      (record {
        start_keeps = λ method path content_type auth k w h. tt;
        append_keeps = λ s n k w h. tt;
        run_keeps = λ k w h. tt;
      })
      platform c tt

module _ {O : Type 0} (platform : Platform O) where
  module _ {I : Type 0} (sdk : Sdk I (Process O)) (working : Working platform) where
    perform_actions-settled :
        (alias : Bytes) (i j : ℕ) (actions : List Action) (w : Process O)
        → (perform_actions sdk (action_handler platform) alias i j actions w).1.m_air_conditioner
          ≡ settled (calls_of alias actions) w.m_air_conditioner
    perform_actions-settled alias i j [] w = refl
    perform_actions-settled alias i j (a ∷ more) w =
        let w' = (action_handler platform alias a.name a.value sdk.uninitialized w).2 in
        perform_actions-settled alias i (suc j) more w'
        ∙ ap (settled (calls_of alias more))
            (handler-settled platform working alias a.name a.value sdk.uninitialized w)
        ∙ sym (
            settled-cons (record { alias = alias; name = a.name; params = a.value })
              (calls_of alias more) w.m_air_conditioner)

    -- The actions of a command, performed one by one with a working mutex, leave what the command as a
    -- whole asks for: the power as the last turnPower says, the temperature 0 if there is any
    -- setPresetTemperature, and what nothing asked for as it was.
    pub perform_aliases-settled :
        (i : ℕ) (aliases : List Alias) (w : Process O)
        → (perform_aliases sdk (action_handler platform) i aliases w).1.m_air_conditioner
          ≡ settled (calls aliases) w.m_air_conditioner
    perform_aliases-settled i [] w = refl
    perform_aliases-settled i (a ∷ more) w =
        let w' = (perform_actions sdk (action_handler platform) a.name i 0 a.actions w).1 in
        perform_aliases-settled (suc i) more w'
        ∙ ap (settled (calls more)) (perform_actions-settled a.name i 0 a.actions w)
        ∙ sym (settled-append (calls_of a.name a.actions) (calls more) w.m_air_conditioner)

    -- With a working mutex, the handler fails only with a message.
    pub action_handler-Explains : Explains sdk (action_handler platform)
    action_handler-Explains alias name params w = elim (Bool-cases (known alias)) [
      | inl h ↦
          subst (λ r. HasMessage r.0 r.1 (message_in r.1))
            (sym (action_handler_known platform working alias name params sdk.uninitialized w h)) tt
      | inr h ↦
          subst (λ r. HasMessage r.0 r.1 (message_in r.1))
            (sym (action_handler_unknown platform alias name params sdk.uninitialized w h))
            (text-HasMessage
              (put_text (take emessage_size (codes "invalid alias: " ++ alias)) sdk.uninitialized)
              (put_text-IsText (take emessage_size (codes "invalid alias: " ++ alias))
                sdk.uninitialized))
    ]

    -- The sample, given a pushed message that starts with its `{"commandID"` and is a command whose
    -- results fit: it performs the actions, runs one request with all the results, and reports the
    -- state where that request succeeds. The actions leave the power as the last turnPower says; any
    -- setPresetTemperature leaves the temperature 0, whatever value it asks for; the rest stays.
    pub received_callback-Settles :
        (buffering : Buffering sdk) (n fuel buffer_size str len : ℕ) (aliases : List Alias)
        (c c0 : Context I (Process O))
        → starts_with (codes "{\"commandID\"") c.message ≡ true
        → open_command sdk buffer_size c ≡ done (some (str, len)) c0
        → rounds aliases < fuel
        → n ≤ length c0.kii.tokens
        → AliasesAt sdk n c0.message str len 0 aliases
        → let (text, w) = perform_aliases sdk (action_handler platform) 0 aliases c0.world in
          let body = results_head ++ (text ++ results_tail) in
          length body ≤ buffering.room c0.kii.internals
          → Sends sdk buffering n
              (action_handler platform)
              action_handler-Explains
              (state_handler platform)
              (state_handler-comes_back platform sdk)
              body
              w
              c0
              (received_callback sdk
                (some (action_handler platform))
                (some (state_handler platform))
                (some (custom_push_handler platform))
                fuel
                buffer_size
                c)
            × (w.m_air_conditioner ≡ settled (calls aliases) c0.world.m_air_conditioner)
    unfolding custom_push_handler
    received_callback-Settles buffering n fuel buffer_size str len aliases c c0 starts opened f t p
          h =
        (
          (received_callback-Sends sdk buffering n (action_handler platform) action_handler-Explains
              (state_handler platform) (state_handler-comes_back platform sdk)
              (custom_push_handler platform) fuel buffer_size str len aliases c c c0 false
              (rw starts refl) opened f t p h).1,
          perform_aliases-settled 0 aliases c0.world,
        )
