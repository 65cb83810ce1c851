-- ===== src/Command/Overflow.antt =====
-- Actions whose results do not fit the request.
pub mod Whole
use thing_if_thing_sdk.Prelude.{
  Bool, true, false, Bytes, length, ℕ, zero, suc, ◌+◌, ◌≤◌, ◌<◌, List, [], ◌∷◌, ◌++◌, Option, none,
  some, ◌≡◌, refl, sym, ◌∙◌, arith, length-append, leb, leb→le, leb_false→lt, Bool-cases, inl, inr,
  append_assoc,
}
use thing_if_thing_sdk.Flow.{Outcome, done, Run, bind_done}
use thing_if_thing_sdk.Kii.{Sdk, Token}
use thing_if_thing_sdk.Context.{Context}
use thing_if_thing_sdk.Request.Writes.{Buffering, Appended, at, fits_first, fits_second}
use thing_if_thing_sdk.Thing.{ActionHandler}
use thing_if_thing_sdk.Command.{handle_action, action_loop, alias_loop}
use thing_if_thing_sdk.Command.Items.{get_key_and_value_at_index}
use thing_if_thing_sdk.Command.Memory.{byte_at, poke}
use thing_if_thing_sdk.Command.Memory.Access.{NoNul, byte_at_lem, poke_lem}
use thing_if_thing_sdk.Command.Results.{comma, result_text}
use thing_if_thing_sdk.Command.Actions.{handle_action-done, handle_action-short}
use thing_if_thing_sdk.Command.Actions.Loop.{
  Action, ActionsAt, Explains, message_in, perform_actions, Completed, action_loop-Completed,
}
use thing_if_thing_sdk.Command.Aliases.{
  Alias, AliasesAt, rounds, perform_aliases, alias_loop-Completed,
}

module _ {I W : Type 0} (sdk : Sdk I W) (handler : ActionHandler W) where
  -- From one world calls of the action handler lead to another, and nothing else was done.
  pub data Called : W → W → Type 0 where
    uncalled : {w : W} → Called w w
    called :
        {w w' : W} (alias name value : Bytes)
        → Called (handler alias name value sdk.uninitialized w).2 w'
        → Called w w'

  pub Called-trans : {u v w : W} → Called u v → Called v w → Called u w
  Called-trans uncalled q = q
  Called-trans (called alias name value p) q = called alias name value (Called-trans p q)

  pub perform_actions-Called :
      (alias : Bytes) (alias_index i : ℕ) (actions : List Action) (w : W)
      → Called w (perform_actions sdk handler alias alias_index i actions w).1
  perform_actions-Called alias alias_index i [] w = uncalled
  perform_actions-Called alias alias_index i (a ∷ more) w =
      called alias a.name a.value (perform_actions-Called alias alias_index (suc i) more _)

  -- The loops were left from `c` by the `return` of handle_command: the handler may have been
  -- called, and the request and the message are as they happen to be.
  pub record Stopped {A : Type 0} (a : A) (c : Context I W) (r : Outcome (Context I W) A)
      : Type 0 where
    pub internals : I
    pub tokens : List Token
    pub message : Bytes
    pub world : W
    pub ends :
        r
        ≡ done a (record c {
          kii = record c.kii { internals = internals; tokens = tokens };
          message = message;
          world = world;
        })
    pub performed : Called c.world world

module _ {I W : Type 0} (sdk : Sdk I W) (buffering : Buffering sdk) (n : ℕ)
    (handler : ActionHandler W) (explains : Explains sdk handler) where
  module _ (m start alias : Bytes) (alias_name : ℕ) (alias_at : alias_name ≡ length start)
      (alias_text : NoNul alias) (str len alias_index : ℕ) where
    pub action_loop-Stopped :
        (fuel i : ℕ) (more : List Action) (c : Context I W)
        → length more < fuel
        → c.message ≡ m
        → n ≤ length c.kii.tokens
        → ActionsAt sdk n m start alias str len i more
        → buffering.room c.kii.internals
          < length (perform_actions sdk handler alias alias_index i more c.world).0
        → Stopped sdk handler false c
            (action_loop sdk (some handler) fuel alias_name str len alias_index i c)
    unfolding action_loop
    action_loop-Stopped zero i more c f e t p h = absurd (omega arith)
    action_loop-Stopped (suc fuel) i [] c f e t p h = absurd (omega arith)
    action_loop-Stopped (suc fuel) i (a ∷ more) c f e t p h =
        let (tokens, enough, r) = p.0 c e t in
        let c1 : Context I W = record c { kii = record c.kii { tokens = tokens } } in
        let place = p.1 in
        let (succeeded, error, w1) = handler alias a.name a.value sdk.uninitialized c.world in
        let one = comma alias_index i ++ result_text a.name succeeded (message_in error) in
        let others = (perform_actions sdk handler alias alias_index (suc i) more w1).0 in
        elim (Bool-cases (leb (length one) (buffering.room c.kii.internals))) [
          | inl fit ↦
              let (j, r', b) =
                handle_action-done sdk buffering handler start alias place.rest a.item a.name
                  place.between a.value place.after place.behind_name place.behind_value
                  place.placed alias_name alias_at alias_text c1 (e ∙ place.lies) alias_index i
                  (message_in error) (explains alias a.name a.value c.world) (leb→le _ _ fit) in
              let c2 : Context I W = record (at c1 j) { world = w1 } in
              let ih =
                action_loop-Stopped fuel (suc i) more c2 (omega arith) e enough p.2
                  (omega (arith, b.left, length-append one others)) in
              record {
                internals = ih.internals;
                tokens = ih.tokens;
                message = ih.message;
                world = ih.world;
                ends =
                    bind_done (get_key_and_value_at_index sdk str len i) _ r
                    ∙ bind_done (handle_action sdk (some handler) alias_name a.item alias_index i) _
                        r'
                    ∙ ih.ends;
                performed = called alias a.name a.value ih.performed;
              }
          | inr short ↦
              let (j, t', r') =
                handle_action-short sdk buffering handler start alias place.rest a.item a.name
                  place.between a.value place.after place.behind_name place.behind_value
                  place.placed alias_name alias_at alias_text c1 (e ∙ place.lies) alias_index i
                  (message_in error) (explains alias a.name a.value c.world)
                  (leb_false→lt _ _ short) in
              record {
                internals = j;
                tokens = tokens;
                message = t';
                world = w1;
                ends =
                    bind_done (get_key_and_value_at_index sdk str len i) _ r
                    ∙ bind_done (handle_action sdk (some handler) alias_name a.item alias_index i) _
                        r';
                performed = called alias a.name a.value uncalled;
              }
        ]
