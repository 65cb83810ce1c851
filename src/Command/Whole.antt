-- ===== src/Command/Whole.antt =====
-- handle_command as a whole, from the parsed command to the request with its results.
use thing_if_thing_sdk.Prelude.{
  Bool, true, false, none, Bytes, codes, length, ℕ, ◌≤◌, ◌<◌, List, ◌++◌, some, ◌≡◌, refl, ◌∙◌, sym,
}
use thing_if_thing_sdk.Flow.{◌>>=◌, Outcome, done, bind_done}
use thing_if_thing_sdk.Kii.{Sdk, Token}
use thing_if_thing_sdk.Context.{Context}
use thing_if_thing_sdk.Request.{append_body}
use thing_if_thing_sdk.Request.Writes.{
  Buffering, Appended, at, Appended-both, fits_first, fits_second, append_body-Writes,
}
use thing_if_thing_sdk.Thing.{CustomPushHandler, ActionHandler, StateHandler}
use thing_if_thing_sdk.Command.{
  received_callback, open_command, alias_loop, close_command, handle_command,
}
use thing_if_thing_sdk.Command.Sent.{ComesBack, Sent, send_results-Sent}
use mathlib.Core.Path.{subst}
use thing_if_thing_sdk.Command.Actions.Loop.{Explains}
use thing_if_thing_sdk.Command.Aliases.{
  Alias, AliasesAt, rounds, perform_aliases, alias_loop-Completed,
}

abbrev pub results_head : Bytes
results_head = codes "{\"actionResults\":["

abbrev pub results_tail : Bytes
results_tail = codes "]}"

module _ {I W : Type 0} (sdk : Sdk I W) (buffering : Buffering sdk) (n : ℕ)
    (handler : ActionHandler W) (explains : Explains sdk handler) (state_handler : StateHandler I W)
    (returned : ComesBack sdk state_handler) where
  -- What handle_command has done once it has ended: the body of the request is `text` behind what was
  -- there, the handler has left the world `w`, the message is as it was, and the request was run from
  -- there, and the state reported.
  pub record Sends (text : Bytes) (w : W) (c : Context I W) (r : Outcome (Context I W) (Unit {0}))
      : Type 0 where
    pub internals : I
    pub tokens : List Token
    pub sent :
        Sent sdk state_handler
          (record c { kii = record c.kii { internals = internals; tokens = tokens }; world = w })
          r
    pub appended : Appended sdk buffering text c.kii.internals internals

  -- What received_callback has done after a custom handler that left `c`.
  abbrev pub Received :
      Bool → Bytes → W → Context I W → Context I W → Outcome (Context I W) (Unit {0}) → Type 0
  Received true body w c c0 r = r ≡ done tt c
  Received false body w c c0 r = Sends body w c0 r

  -- handle_command on a command that was opened, whose aliases and actions the parser finds: it
  -- calls the handler for every action of every alias, in order, and then runs one request, whose
  -- body holds all the results, if they fit; where the request succeeds, the state is reported once.
  -- The state handler always comes back. As many rounds as there are aliases and actions are
  -- enough.
  pub handle_command-Sends :
      (fuel buffer_size str len : ℕ) (aliases : List Alias) (c c0 : Context I W)
      → open_command sdk buffer_size c ≡ done (some (str, len)) c0
      → rounds aliases < fuel
      → n ≤ length c0.kii.tokens
      → AliasesAt sdk n c0.message str len 0 aliases
      → let (text, w) = perform_aliases sdk handler 0 aliases c0.world in
        let body = results_head ++ (text ++ results_tail) in
        length body ≤ buffering.room c0.kii.internals
        → Sends body w c0
            (handle_command sdk (some handler) (some state_handler) fuel buffer_size c)
  unfolding handle_command
  handle_command-Sends fuel buffer_size str len aliases c c0 opened f t p h =
      let (text, w) = perform_aliases sdk handler 0 aliases c0.world in
      let (i, e, a) =
        (append_body-Writes sdk buffering results_head).when_fits c0
          (fits_first sdk buffering results_head (text ++ results_tail) c0 h) in
      let room_left = fits_second sdk buffering results_head (text ++ results_tail) c0 h a in
      let loop =
        alias_loop-Completed sdk buffering n handler explains c0.message str len fuel 0 aliases
          (at c0 i) f refl t p (fits_first sdk buffering text results_tail (at c0 i) room_left) in
      let c1 : Context I W = record c0 {
        kii = record c0.kii { internals = loop.internals; tokens = loop.tokens };
        world = w;
      } in
      let (j, e', b) =
        (append_body-Writes sdk buffering results_tail).when_fits c1
          (fits_second sdk buffering text results_tail (at c0 i) room_left loop.appended) in
      record {
        internals = j;
        tokens = loop.tokens;
        sent =
            subst (Sent sdk state_handler _)
              (sym (
                bind_done (open_command sdk buffer_size) _ opened
                ∙ bind_done (append_body sdk results_head) _ e
                ∙ bind_done (alias_loop sdk (some handler) fuel str len 0) _ loop.ends
                ∙ (unfold close_command in bind_done (append_body sdk results_tail) _ e')))
              (send_results-Sent sdk state_handler (some handler) returned _);
        appended =
            Appended-both sdk buffering results_head (text ++ results_tail) a
              (Appended-both sdk buffering text results_tail loop.appended b);
      }

  -- On a command whose aliases and actions the parser finds and whose results fit, received_callback
  -- performs every action, runs one request with all the results, and reports the state where there is no custom push
  -- handler. Where there is one, it does the same from the context that the handler left, unless the
  -- handler skips the message: then it does nothing more.
  pub received_callback-Sends :
      (custom : CustomPushHandler I W) (fuel buffer_size str len : ℕ) (aliases : List Alias)
      (s c c0 : Context I W) (skip : Bool)
      → custom s.message buffer_size s ≡ done skip c
      → open_command sdk buffer_size c ≡ done (some (str, len)) c0
      → rounds aliases < fuel
      → n ≤ length c0.kii.tokens
      → AliasesAt sdk n c0.message str len 0 aliases
      → let (text, w) = perform_aliases sdk handler 0 aliases c0.world in
        let body = results_head ++ (text ++ results_tail) in
        length body ≤ buffering.room c0.kii.internals
        → Sends body w c0
            (received_callback sdk (some handler) (some state_handler) none fuel buffer_size c)
          × Received skip body w c c0 (
              received_callback sdk
                (some handler)
                (some state_handler)
                (some custom)
                fuel
                buffer_size
                s)
  unfolding received_callback
  received_callback-Sends custom fuel buffer_size str len aliases s c c0 false looked opened f t p
        h =
      let sent = handle_command-Sends fuel buffer_size str len aliases c c0 opened f t p h in
      (sent, rw (looked, ◌>>=◌) sent)
  received_callback-Sends custom fuel buffer_size str len aliases s c c0 true looked opened f t p
        h =
      let sent = handle_command-Sends fuel buffer_size str len aliases c c0 opened f t p h in
      (sent, bind_done (custom s.message buffer_size) _ looked)
