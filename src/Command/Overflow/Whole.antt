-- ===== src/Command/Overflow/Whole.antt =====
-- The loop over the aliases, and handle_command, where the results do not fit.
use thing_if_thing_sdk.Prelude.{
  if◌then◌else◌, false, Bytes, length, ℕ, zero, suc, ◌≤◌, ◌<◌, List, [], ◌∷◌, ◌++◌, Option, some,
  ◌≡◌, refl, ◌∙◌, arith, length-append, leb, leb→le, leb_false→lt, Bool-cases, inl, inr,
}
use thing_if_thing_sdk.Flow.{◌>>=◌, pure, done, bind_done}
use thing_if_thing_sdk.Kii.{Sdk}
use thing_if_thing_sdk.Context.{Context}
use thing_if_thing_sdk.Request.{append_body}
use thing_if_thing_sdk.Request.Writes.{Buffering, at, append_body-Writes}
use thing_if_thing_sdk.Thing.{ActionHandler, StateHandler}
use thing_if_thing_sdk.Command.{
  action_loop, alias_loop, open_command, handle_command, close_command,
}
use thing_if_thing_sdk.Command.Actions.Loop.{Explains, perform_actions, action_loop-Completed}
use thing_if_thing_sdk.Command.Aliases.{
  while_alias, alias_loop-entered, alias_loop-left, Alias, AliasesAt, rounds, perform_aliases,
  alias_loop-Completed,
}
use thing_if_thing_sdk.Command.Whole.{results_head, results_tail}
use thing_if_thing_sdk.Command.Overflow.{
  Called, uncalled, Called-trans, perform_actions-Called, Stopped, action_loop-Stopped,
}

module _ {I W : Type 0} (sdk : Sdk I W) (buffering : Buffering sdk) (n : ℕ)
    (handler : ActionHandler W) (explains : Explains sdk handler) where
  perform_aliases-Called :
      (i : ℕ) (aliases : List Alias) (w : W)
      → Called sdk handler w (perform_aliases sdk handler i aliases w).1
  perform_aliases-Called i [] w = uncalled
  perform_aliases-Called i (a ∷ more) w =
      Called-trans sdk handler (perform_actions-Called sdk handler a.name i 0 a.actions w)
        (perform_aliases-Called (suc i) more _)

  module _ (m : Bytes) (str len : ℕ) where
    alias_loop-Stopped :
        (fuel i : ℕ) (aliases : List Alias) (c : Context I W)
        → rounds aliases < fuel
        → c.message ≡ m
        → n ≤ length c.kii.tokens
        → AliasesAt sdk n m str len i aliases
        → buffering.room c.kii.internals < length (perform_aliases sdk handler i aliases c.world).0
        → Stopped sdk handler false c (alias_loop sdk (some handler) fuel str len i c)
    unfolding alias_loop
    alias_loop-Stopped zero i aliases c f e t p h = absurd (omega arith)
    alias_loop-Stopped (suc fuel) i [] c f e t p h = absurd (omega arith)
    alias_loop-Stopped (suc fuel) i (a ∷ more) c f e t p h =
        let (tokens, enough, r) = p.0 c e t in
        let c1 : Context I W = record c { kii = record c.kii { tokens = tokens } } in
        let place = p.1 in
        let c2 : Context I W = record c1 {
          message = while_alias sdk n handler m str len fuel i a place;
        } in
        let (text, w1) = perform_actions sdk handler a.name i 0 a.actions c.world in
        let others = (perform_aliases sdk handler (suc i) more w1).0 in
        elim (Bool-cases (leb (length text) (buffering.room c.kii.internals))) [
          | inl fit ↦
              let inner =
                action_loop-Completed sdk buffering n handler explains
                  (while_alias sdk n handler m str len fuel i a place) place.start a.name a.item.key
                  place.key_at place.key_text a.item.value a.item.value_len i fuel 0 a.actions c2
                  (omega arith) refl enough place.actions_at (leb→le _ _ fit) in
              let c3 : Context I W = record c {
                kii = record c.kii { internals = inner.internals; tokens = inner.tokens };
                world = w1;
              } in
              let ih =
                alias_loop-Stopped fuel (suc i) more c3 (omega arith) e inner.enough p.2
                  (omega (arith, inner.appended.left, length-append text others)) in
              record {
                internals = ih.internals;
                tokens = ih.tokens;
                message = ih.message;
                world = ih.world;
                ends =
                    alias_loop-entered sdk n handler m str len fuel i a place c c1 r e
                    ∙ bind_done
                        (action_loop sdk (some handler) fuel a.item.key a.item.value
                          a.item.value_len i 0)
                        _ inner.ends
                    ∙ alias_loop-left sdk n handler m str len fuel i a place c3 e
                    ∙ ih.ends;
                performed =
                    Called-trans sdk handler
                      (perform_actions-Called sdk handler a.name i 0 a.actions c.world)
                      ih.performed;
              }
          | inr short ↦
              let inner =
                action_loop-Stopped sdk buffering n handler explains
                  (while_alias sdk n handler m str len fuel i a place) place.start a.name a.item.key
                  place.key_at place.key_text a.item.value a.item.value_len i fuel 0 a.actions c2
                  (omega arith) refl enough place.actions_at (leb_false→lt _ _ short) in
              record {
                internals = inner.internals;
                tokens = inner.tokens;
                message = inner.message;
                world = inner.world;
                ends =
                    alias_loop-entered sdk n handler m str len fuel i a place c c1 r e
                    ∙ bind_done
                        (action_loop sdk (some handler) fuel a.item.key a.item.value
                          a.item.value_len i 0)
                        _ inner.ends;
                performed = inner.performed;
              }
        ]

  -- The part of handle_command behind the head of the body, which left `i`.
  loops-Stopped :
      (state_handler : Option (StateHandler I W)) (fuel str len : ℕ) (aliases : List Alias)
      (c0 : Context I W) (i : I)
      → rounds aliases < fuel
      → n ≤ length c0.kii.tokens
      → AliasesAt sdk n c0.message str len 0 aliases
      → buffering.room i
        < length ((perform_aliases sdk handler 0 aliases c0.world).0 ++ results_tail)
      → Stopped sdk handler tt c0 (
          (alias_loop sdk (some handler) fuel str len 0 >>= λ finished.
          if finished then close_command sdk (some handler) state_handler else pure tt)
            (at c0 i))
  loops-Stopped state_handler fuel str len aliases c0 i f t p h =
      let (text, w) = perform_aliases sdk handler 0 aliases c0.world in
      elim (Bool-cases (leb (length text) (buffering.room i))) [
        | inr short ↦
            let loop =
              alias_loop-Stopped c0.message str len fuel 0 aliases (at c0 i) f refl t p
                (leb_false→lt _ _ short) in
            record {
              internals = loop.internals;
              tokens = loop.tokens;
              message = loop.message;
              world = loop.world;
              ends = bind_done (alias_loop sdk (some handler) fuel str len 0) _ loop.ends;
              performed = loop.performed;
            }
        | inl fit ↦
            let loop =
              alias_loop-Completed sdk buffering n handler explains c0.message str len fuel 0
                aliases (at c0 i) f refl t p (leb→le _ _ fit) in
            let (r, j, e, failed) =
              (append_body-Writes sdk buffering results_tail).when_short
                (record c0 {
                  kii = record c0.kii { internals = loop.internals; tokens = loop.tokens };
                  world = w;
                })
                (omega (arith, loop.appended.left, length-append text results_tail)) in
            record {
              internals = j;
              tokens = loop.tokens;
              message = c0.message;
              world = w;
              ends =
                  bind_done (alias_loop sdk (some handler) fuel str len 0) _ loop.ends
                  ∙ (unfold close_command in
                      bind_done (append_body sdk results_tail) _ e ∙ rw failed refl);
              performed = perform_aliases-Called 0 aliases c0.world;
            }
      ]

  -- A command whose results do not fit the request: handle_command returns, and all that it did
  -- was to call the action handler, and to write to the request and to the message. No request is
  -- run: neither the results nor a part of them is sent, nor the state.
  pub handle_command-Stopped :
      (state_handler : Option (StateHandler I W)) (fuel buffer_size str len : ℕ)
      (aliases : List Alias) (c c0 : Context I W)
      → open_command sdk buffer_size c ≡ done (some (str, len)) c0
      → rounds aliases < fuel
      → n ≤ length c0.kii.tokens
      → AliasesAt sdk n c0.message str len 0 aliases
      → buffering.room c0.kii.internals
        < length
            (results_head ++ ((perform_aliases sdk handler 0 aliases c0.world).0 ++ results_tail))
      → Stopped sdk handler tt c0
          (handle_command sdk (some handler) state_handler fuel buffer_size c)
  unfolding handle_command
  handle_command-Stopped state_handler fuel buffer_size str len aliases c c0 opened f t p h =
      let (text, w) = perform_aliases sdk handler 0 aliases c0.world in
      let head = append_body-Writes sdk buffering results_head in
      elim (Bool-cases (leb (length results_head) (buffering.room c0.kii.internals))) [
        | inr short ↦
            let (r, j, e, failed) = head.when_short c0 (leb_false→lt _ _ short) in
            record {
              internals = j;
              tokens = c0.kii.tokens;
              message = c0.message;
              world = c0.world;
              ends =
                  bind_done (open_command sdk buffer_size) _ opened
                  ∙ bind_done (append_body sdk results_head) _ e
                  ∙ rw failed refl;
              performed = uncalled;
            }
        | inl fit ↦
            let (i, e, a) = head.when_fits c0 (leb→le _ _ fit) in
            let rest =
              loops-Stopped state_handler fuel str len aliases c0 i f t p
                (omega (arith, a.left, length-append results_head (text ++ results_tail))) in
            record {
              internals = rest.internals;
              tokens = rest.tokens;
              message = rest.message;
              world = rest.world;
              ends =
                  bind_done (open_command sdk buffer_size) _ opened
                  ∙ bind_done (append_body sdk results_head) _ e
                  ∙ rest.ends;
              performed = rest.performed;
            }
      ]
