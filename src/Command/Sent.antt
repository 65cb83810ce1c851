-- ===== src/Command/Sent.antt =====
-- The end of handle_command: the request with the results, and the report of the state.
use thing_if_thing_sdk.Prelude.{
  Bool, true, false, Bool-cases, inl, inr, length, ◌<◌, ◌≤◌, leb, nonzero, Option, none, some, ◌≡◌,
  if◌then◌else◌, leb→le, leb_false→lt,
}
use thing_if_thing_sdk.Flow.{
  Outcome, done, aborted, fault, unfinished, Returns, pure, continue, ◌>>=◌,
}
use thing_if_thing_sdk.Kii.{Sdk}
use thing_if_thing_sdk.Context.{Context, size_mod}
use thing_if_thing_sdk.Request.{prv_writer}
use thing_if_thing_sdk.ResourcePath.{prv_set_state_resource_path}
use thing_if_thing_sdk.ResourcePath.Bounds.{prv_set_state_resource_path-Builds}
use thing_if_thing_sdk.Thing.{ActionHandler, StateHandler}
use thing_if_thing_sdk.Report.{prv_send_state, send_report}
use thing_if_thing_sdk.Report.Rounds.{Reports, after, put_state, states_path, send_report-Reports}
use thing_if_thing_sdk.Command.{send_results}

module _ {I W : Type 0} (sdk : Sdk I W) (handler : StateHandler I W) where
  -- What running the request leaves.
  abbrev pub after_run : Context I W → Context I W
  after_run c = after (sdk.kii_api_call_run c.kii c.world) c

  -- The request that is ready in `c` is run; where that succeeds, the state is reported once, to the
  -- path of the thing's states. A path that does not fit its 256 bytes fails an assertion, or ends
  -- the command where assertions are compiled out; what becomes of a path that is longer than the
  -- address space is left open.
  pub data Sent (c : Context I W) : Outcome (Context I W) (Unit {0}) → Type 0 where
    not_run : nonzero (sdk.kii_api_call_run c.kii c.world).0 ≡ true → Sent c (done tt (after_run c))
    reported :
        {ok : Bool} {t : Context I W}
        → nonzero (sdk.kii_api_call_run c.kii c.world).0 ≡ false
        → length (states_path (after_run c)) < 256
        → Reports sdk handler (states_path (after_run c)) (after_run c) ok t
        → Sent c (done tt t)
    path_too_long :
        nonzero (sdk.kii_api_call_run c.kii c.world).0 ≡ false
        → 256 ≤ length (states_path (after_run c))
        → Sent c (if sdk.noassert then done tt (after_run c) else aborted)
    beyond_memory :
        {r : Outcome (Context I W) (Unit {0})}
        → size_mod ≤ length (states_path (after_run c))
        → Sent c r

  report_ends :
      (c : Context I W) (r : Outcome (Context I W) Bool)
      → nonzero (sdk.kii_api_call_run c.kii c.world).0 ≡ false
      → length (states_path (after_run c)) < 256
      → Returns (Reports sdk handler (states_path (after_run c)) (after_run c)) r
      → Sent c (continue (λ _. pure tt) r)
  report_ends c (done ok t) ran fits h = reported ran fits h
  report_ends c aborted ran fits h = absurd h
  report_ends c fault ran fits h = absurd h
  report_ends c unfinished ran fits h = absurd h

  long_ends :
      (c : Context I W) (noassert : Bool)
      → Sent c (if noassert then done tt (after_run c) else aborted)
      → Sent c (
          continue
            (λ _. pure tt)
            (continue
              (λ path. elim path [ none ↦ pure false | some p ↦ send_report sdk p (some handler) ])
              (if noassert then done none (after_run c) else aborted)))
  long_ends c true h = h
  long_ends c false h = h

  -- The handler always comes back.
  abbrev pub ComesBack : Type 0
  ComesBack = (c : Context I W) → Returns (λ ok t. Unit {0}) (handler (prv_writer sdk) c)

  report_path :
      (c : Context I W)
      → length (states_path c) < size_mod
      → prv_set_state_resource_path sdk.noassert c.kii.app_id c.kii.author.author_id 256 c ≡ (
          if leb 256 (length (states_path c))
          then (if sdk.noassert then done none c else aborted)
          else done (some (states_path c)) c)
  report_path c h =
      prv_set_state_resource_path-Builds sdk.noassert c.kii.app_id 256 c.kii.author.author_id h c

  prv_send_state-ends :
      ComesBack
      → (c : Context I W) → nonzero (sdk.kii_api_call_run c.kii c.world).0 ≡ false
      → length (states_path (after_run c)) < size_mod
      → Sent c (continue (λ _. pure tt) (prv_send_state sdk (some handler) (after_run c)))
  unfolding prv_send_state
  prv_send_state-ends returned c ran h =
      let c1 = after_run c in
      let e = report_path c1 h in
      elim (Bool-cases (leb 256 (length (states_path c1)))) [
        | inl long ↦
            rw (e, ◌>>=◌)
              (rw long (long_ends c sdk.noassert (path_too_long ran (leb→le 256 _ long))))
        | inr short ↦
            rw (e, ◌>>=◌)
              (rw short (
                report_ends c (send_report sdk (states_path c1) (some handler) c1) ran
                  (leb_false→lt 256 _ short)
                  (send_report-Reports sdk handler (states_path c1) c1
                    (returned (after (put_state sdk handler (states_path c1) c1) c1)))))
      ]

  -- send_results runs the request and reports the state, where the handler comes back.
  pub send_results-Sent :
      (action_handler : Option (ActionHandler W))
      → ComesBack
      → (c : Context I W) → Sent c (send_results sdk action_handler (some handler) c)
  unfolding send_results
  send_results-Sent action_handler returned c =
      elim (Bool-cases (nonzero (sdk.kii_api_call_run c.kii c.world).0)) [
        | inl e ↦ rw e (not_run e)
        | inr e ↦ rw e (elim (Bool-cases (leb size_mod (length (states_path (after_run c))))) [
          | inl long ↦ beyond_memory (leb→le size_mod _ long)
          | inr short ↦ prv_send_state-ends returned c e (leb_false→lt size_mod _ short)
        ])
      ]
