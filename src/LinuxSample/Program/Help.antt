-- ===== src/LinuxSample/Program/Help.antt =====
-- What main does where `onboard` and `onboard-with-token` are asked for help.
use thing_if_thing_sdk.Prelude.{
  true, Bytes, codes, get_elem?, ℕ, pos, List, ◌∷◌, Option, none, some, ◌≡◌, refl, sym,
}
use mathlib.Core.Bool.{true≢false}
use thing_if_thing_sdk.Flow.{done, Run, pure, bind_done, ◌>>◌}
use thing_if_thing_sdk.Kii.{Sdk}
use thing_if_thing_sdk.Thing.{Host}
use thing_if_thing_sdk.Lifecycle.{start}
use thing_if_thing_sdk.LinuxSample.{Process, Platform}
use thing_if_thing_sdk.LinuxSample.Options.{Parsed, LongOption, token_options, onboard_options}
use thing_if_thing_sdk.LinuxSample.Program.{
  Surroundings, running, unless_named, token_loop, onboard_loop, sub_command, main,
}
use thing_if_thing_sdk.LinuxSample.Program.Started.{names_help}

module _ {I O : Type 0} (sdk : Sdk I (Process O)) (platform : Platform O)
    (around : Surroundings O) where
  main-started :
      (program subc : Bytes) (arguments : List Bytes) (h : Host I (Process O)) (o : O)
      → around.pthread_mutex_init h.world.others ≡ (pos 0, o)
      → let h1 : Host I (Process O) = record h { world = record h.world { others = o } } in
        sub_command sdk platform around subc (program ∷ subc ∷ arguments) h1 ≡ done none h1
        → main sdk platform around (program ∷ subc ∷ arguments) h ≡ (start sdk >> pure running) h1
  unfolding main
  main-started program subc arguments h o made e =
      rw (made, main)
        (bind_done (sub_command sdk platform around subc (program ∷ subc ∷ arguments)) _ e)

  breaks :
      (next : Run (Host I (Process O)) (Option ℕ)) (option : Option LongOption)
      (h : Host I (Process O))
      → names_help option ≡ true
      → unless_named sdk platform around option next h ≡ done none h
  breaks next none h e = absurd (true≢false (sym e))
  breaks next (some o) h e = rw e refl

  -- Where the first option that `onboard` or `onboard-with-token` meets is --help, main calls start
  -- on the variable kii_thing_if, which nothing has written.
  pub main-help :
      (program : Bytes) (arguments : List Bytes) (h : Host I (Process O)) (o : O) (p q : Parsed)
      (ps qs : List Parsed)
      → around.pthread_mutex_init h.world.others ≡ (pos 0, o)
      → around.getopt_long (program ∷ codes "onboard" ∷ arguments) onboard_options ≡ p ∷ ps
      → names_help (get_elem? onboard_options p.opt_index) ≡ true
      → around.getopt_long (program ∷ codes "onboard-with-token" ∷ arguments) token_options ≡ q ∷ qs
      → names_help (get_elem? token_options q.opt_index) ≡ true
      → let starts =
          (start sdk >> pure running) (record h { world = record h.world { others = o } }) in
        (main sdk platform around (program ∷ codes "onboard" ∷ arguments) h ≡ starts)
        × (main sdk platform around (program ∷ codes "onboard-with-token" ∷ arguments) h ≡ starts)
  unfolding sub_command token_loop onboard_loop
  main-help program arguments h o p q ps qs made e n e' n' =
      let h1 : Host I (Process O) = record h { world = record h.world { others = o } } in
      (
        main-started program (codes "onboard") arguments h o made
            (rw e (breaks _ (get_elem? onboard_options p.opt_index) h1 n)),
        main-started program (codes "onboard-with-token") arguments h o made
            (rw e' (breaks _ (get_elem? token_options q.opt_index) h1 n')),
      )
