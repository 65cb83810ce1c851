-- ===== src/LinuxSample/Program/Started.antt =====
-- What is true of the instance when main starts it.
use thing_if_thing_sdk.Prelude.{
  Bool, true, false, Bytes, codes, bytes_eq, get_elem?, ℕ, nonzero, List, [], ◌∷◌, Option, none,
  some, ◌&&◌, ◌||◌, ◌≡◌, refl, arith, if◌then◌else◌,
}
use mathlib.Core.Bool.{true≢false}
use thing_if_thing_sdk.Flow.{
  Outcome, done, aborted, fault, unfinished, Run, pure, Ensures, Ensures-if, Ensures-continue,
  Ensures-weaken, continue, ◌>>=◌,
}
use thing_if_thing_sdk.Kii.{Sdk}
use thing_if_thing_sdk.Thing.{Host}
use thing_if_thing_sdk.Lifecycle.{start}
use thing_if_thing_sdk.LinuxSample.{Process, Platform}
use thing_if_thing_sdk.LinuxSample.Options.{
  Parsed, LongOption, token_options, onboard_options, stored,
}
use thing_if_thing_sdk.LinuxSample.Program.{
  Surroundings, Ending, exited, running, onboarding, unless_named, token_loop, onboard_loop,
  sub_command, main, ending_of,
}
use thing_if_thing_sdk.LinuxSample.Program.Ready.{
  Ready, Started, exits, onboarding-MakesReady, onboard_with_token-Started,
  onboard_with_password-Started,
}

-- Some option of this list is --help.
abbrev pub names_help : Option LongOption → Bool
names_help none = false
names_help (some o) = bytes_eq o.name (codes "help")

abbrev pub any_help : List LongOption → List Parsed → Bool
any_help options [] = false
any_help options (p ∷ ps) = names_help (get_elem? options p.opt_index) || any_help options ps

-- The sub-command is one of the two that onboard and start, and its options ask for help.
abbrev pub asks_help : {O : Type 0} → Surroundings O → Bytes → List Bytes → Bool
asks_help around subc argv =
    (bytes_eq subc (codes "onboard-with-token")
      && any_help token_options (around.getopt_long argv token_options))
    || (bytes_eq subc (codes "onboard")
        && any_help onboard_options (around.getopt_long argv onboard_options))

module _ {I O : Type 0} (sdk : Sdk I (Process O)) (platform : Platform O)
    (around : Surroundings O) where
  -- One round of a loop over the options.
  module _ (p : Parsed) (next : Run (Host I (Process O)) (Option ℕ)) (h : Host I (Process O))
      (help : Bool) (goes_on : Ensures (Started sdk platform around help) (next h)) where
    named-Started :
        (found : Bool)
        → Ensures
            (Started sdk platform around (found || help))
            ((if found then pure none else next) h)
    named-Started true = λ e n. absurd (true≢false n)
    named-Started false = goes_on

    unless_help-Started :
        (option : Option LongOption)
        → Ensures
            (Started sdk platform around (names_help option || help))
            (unless_named sdk platform around option next h)
    unless_help-Started none = tt
    unless_help-Started (some o) = named-Started (bytes_eq o.name (codes "help"))

  token_loop-Started :
      (ps : List Parsed) (thing_id access_token : Option Bytes) (h : Host I (Process O))
      → Ensures
          (Started sdk platform around (any_help token_options ps))
          (token_loop sdk platform around ps thing_id access_token h)
  unfolding token_loop
  token_loop-Started [] thing_id access_token h =
      onboard_with_token-Started sdk platform around thing_id access_token h
  token_loop-Started (p ∷ ps) thing_id access_token h =
      unless_help-Started p
        (token_loop sdk platform around ps (stored p 0 thing_id) (stored p 1 access_token)) h
        (any_help token_options ps)
        (token_loop-Started ps (stored p 0 thing_id) (stored p 1 access_token) h)
        (get_elem? token_options p.opt_index)

  onboard_loop-Started :
      (ps : List Parsed) (vendor thing password : Option Bytes) (h : Host I (Process O))
      → Ensures
          (Started sdk platform around (any_help onboard_options ps))
          (onboard_loop sdk platform around ps vendor thing password h)
  unfolding onboard_loop
  onboard_loop-Started [] vendor thing password h =
      onboard_with_password-Started sdk platform around
        (onboarding sdk platform around vendor thing password) h
        (onboarding-MakesReady sdk platform around vendor thing password)
  onboard_loop-Started (p ∷ ps) vendor thing password h =
      unless_help-Started p
        (onboard_loop sdk platform around ps (stored p 0 vendor) (stored p 1 thing)
          (stored p 2 password))
        h (any_help onboard_options ps)
        (onboard_loop-Started ps (stored p 0 vendor) (stored p 1 thing) (stored p 2 password) h)
        (get_elem? onboard_options p.opt_index)

  -- `get` and `update` exit.
  status-Started :
      (m : Run (Host I (Process O)) ℕ) (help : Bool) (h : Host I (Process O))
      → Ensures (Started sdk platform around help) ((m >>= λ status. pure (some status)) h)
  status-Started m help h =
      Ensures-continue (λ _ _. Unit {0}) (Started sdk platform around help)
        (λ status. pure (some status)) (m h) (anything (m h))
        (λ status t _. exits sdk platform around help status t)
    where
      anything : (r : Outcome (Host I (Process O)) ℕ) → Ensures (λ _ _. Unit {0}) r
      anything (done a t) = tt
      anything aborted = tt
      anything fault = tt
      anything unfinished = tt

  or_left : (a b : Bool) → (a || b) ≡ false → a ≡ false
  or_left true b e = e
  or_left false b e = refl

  -- The four sub-commands, of which the first two can go on.
  module _ (m n : Run (Host I (Process O)) (Option ℕ)) (get update : Run (Host I (Process O)) ℕ)
      (x y : Bool) (h : Host I (Process O))
      (token_ends : Ensures (Started sdk platform around x) (m h))
      (onboard_ends : Ensures (Started sdk platform around y) (n h)) where
    chosen-Started :
        (is_token is_onboard is_get is_update : Bool)
        → Ensures (Started sdk platform around ((is_token && x) || (is_onboard && y))) (
            (if is_token
                then m
                else (if is_onboard
                    then n
                    else (if is_get
                        then (get >>= λ status. pure (some status))
                        else (if is_update
                            then (update >>= λ status. pure (some status))
                            else pure (some 0)))))
              h)
    chosen-Started true o g u =
        Ensures-weaken (Started sdk platform around x) _ (m h)
          (λ ended h' f e none_asked. f e (or_left x (o && y) none_asked)) token_ends
    chosen-Started false true g u = onboard_ends
    chosen-Started false false true u = status-Started get false h
    chosen-Started false false false true = status-Started update false h
    chosen-Started false false false false = exits sdk platform around false 0 h

  -- Where main goes on to start, the options asked for help, or the instance is onboarded, with the
  -- same author in both of its kii_t, and has the handlers of the sample.
  pub sub_command-Started :
      (subc : Bytes) (argv : List Bytes) (h : Host I (Process O))
      → Ensures
          (Started sdk platform around (asks_help around subc argv))
          (sub_command sdk platform around subc argv h)
  unfolding sub_command
  sub_command-Started subc argv h =
      chosen-Started _ _ _ _ _ _ h
        (token_loop-Started (around.getopt_long argv token_options) none none h)
        (onboard_loop-Started (around.getopt_long argv onboard_options) none none none h)
        (bytes_eq subc (codes "onboard-with-token")) (bytes_eq subc (codes "onboard"))
        (bytes_eq subc (codes "get")) (bytes_eq subc (codes "update"))

  -- main is in its endless loop, after a call of start on an instance that was ready.
  abbrev pub StartedReady : Ending → Host I (Process O) → Type 0
  StartedReady ending h' =
      ending ≡ running
      → (h1 : Host I (Process O)) × Ready sdk platform h1
        × ((ok : Bool) × (start sdk h1 ≡ done ok h'))

  start_ready :
      (h1 : Host I (Process O)) (r : Outcome (Host I (Process O)) Bool)
      → Ready sdk platform h1
      → start sdk h1 ≡ r
      → Ensures StartedReady (continue (λ _. pure running) r)
  start_ready h1 (done ok h') ready e = λ _. (h1, ready, (ok, e))
  start_ready h1 aborted ready e = tt
  start_ready h1 fault ready e = tt
  start_ready h1 unfinished ready e = tt

  exited-StartedReady : (status : ℕ) (h1 : Host I (Process O)) → StartedReady (exited status) h1
  exited-StartedReady status h1 e = absurd (ground arith)

  finish :
      (ended : Option ℕ) (h1 : Host I (Process O))
      → (ended ≡ none → Ready sdk platform h1)
      → Ensures StartedReady (ending_of sdk platform around ended h1)
  finish (some status) h1 f = exited-StartedReady status h1
  finish none h1 f = start_ready h1 (start sdk h1) (f refl) refl

  -- main gets into its endless loop only after it has called start on an instance that is onboarded,
  -- with the same author in both of its kii_t, and that has the handlers and the period of the
  -- sample, unless the options of `onboard` or `onboard-with-token` ask for help.
  pub main-StartedReady :
      (program subc : Bytes) (arguments : List Bytes) (h : Host I (Process O))
      → asks_help around subc (program ∷ subc ∷ arguments) ≡ false
      → Ensures StartedReady (main sdk platform around (program ∷ subc ∷ arguments) h)
  unfolding main
  main-StartedReady program subc arguments h no_help =
      Ensures-if StartedReady (nonzero (around.pthread_mutex_init h.world.others).0)
        (pure (exited 1)) _ _ (λ h1. exited-StartedReady 1 h1)
        (λ h1.
          Ensures-continue
            (Started sdk platform around (asks_help around subc (program ∷ subc ∷ arguments)))
            StartedReady (ending_of sdk platform around)
            (sub_command sdk platform around subc (program ∷ subc ∷ arguments) h1)
            (sub_command-Started subc (program ∷ subc ∷ arguments) h1)
            (λ ended h2 f. finish ended h2 (λ e. f e no_help)))
