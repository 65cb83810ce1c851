-- ===== src/Report/Rounds.antt =====
-- One report of the state (prv_send_state, and the body of the loop of prv_update_status), by the
-- calls that it makes of the Kii SDK and of the application.
use thing_if_thing_sdk.Prelude.{
  Bool, true, false, Bool-cases, inl, inr, Bytes, codes, ℤ, nonzero, not, some, ◌++◌, ◌≡◌, refl,
  if◌then◌else◌,
}
use thing_if_thing_sdk.Flow.{
  Outcome, done, aborted, fault, unfinished, Returns, pure, continue, ◌>>=◌,
}
use thing_if_thing_sdk.Kii.{Kii, Sdk}
use thing_if_thing_sdk.Context.{Context, call}
use thing_if_thing_sdk.Request.{prv_writer}
use thing_if_thing_sdk.ResourcePath.{thing_if_app_path, target_part, states_part}
use thing_if_thing_sdk.Thing.{StateHandler}
use thing_if_thing_sdk.Report.{send_report, content_update_state}

-- The path of the states of the thing.
abbrev pub states_path : {I W : Type 0} → Context I W → Bytes
states_path c =
    thing_if_app_path ++ (c.kii.app_id ++ (target_part ++ (c.kii.author.author_id ++ states_part)))

-- What a call of the Kii SDK leaves.
abbrev pub after : {I W : Type 0} → ℤ × Kii I W × W → Context I W → Context I W
after (r, k, w) c = record c { kii = k; world = w }

module _ {I W : Type 0} (sdk : Sdk I W) (handler : StateHandler I W) where
  -- An authenticated PUT of the state to the path.
  abbrev pub put_state : Bytes → Context I W → ℤ × Kii I W × W
  put_state path c =
      sdk.kii_api_call_start (codes "PUT") path (some content_update_state) true c.kii c.world

  -- One report, from a context to its result and the context it leaves: the request does not start;
  -- or the handler, which gets the writer of its body, gives up; or the request is run.
  pub data Reports (path : Bytes) (c : Context I W) : Bool → Context I W → Type 0 where
    not_started :
        nonzero (put_state path c).0 ≡ true → Reports path c false (after (put_state path c) c)
    given_up :
        {t : Context I W}
        → nonzero (put_state path c).0 ≡ false
        → handler (prv_writer sdk) (after (put_state path c) c) ≡ done false t
        → Reports path c false t
    ran :
        {t : Context I W}
        → nonzero (put_state path c).0 ≡ false
        → handler (prv_writer sdk) (after (put_state path c) c) ≡ done true t
        → Reports path c
            (not (nonzero (sdk.kii_api_call_run t.kii t.world).0))
            (after (sdk.kii_api_call_run t.kii t.world) t)

  ran_result :
      (path : Bytes) (c t : Context I W) (b : Bool)
      → nonzero (sdk.kii_api_call_run t.kii t.world).0 ≡ b
      → Reports path c
          (not (nonzero (sdk.kii_api_call_run t.kii t.world).0))
          (after (sdk.kii_api_call_run t.kii t.world) t)
      → Returns
          (Reports path c)
          ((if b then pure false else pure true) (after (sdk.kii_api_call_run t.kii t.world) t))
  ran_result path c t true e h = rw e at h
  ran_result path c t false e h = rw e at h

  handled :
      (path : Bytes) (c : Context I W) (r : Outcome (Context I W) Bool)
      → nonzero (put_state path c).0 ≡ false
      → handler (prv_writer sdk) (after (put_state path c) c) ≡ r
      → Returns (λ ok t. Unit {0}) r
      → Returns (Reports path c) (
          continue
            (λ written.
              if written
              then (call sdk.kii_api_call_run >>= λ retval.
                  if nonzero retval then pure false else pure true)
              else pure false)
            r)
  handled path c (done true t) started e h = ran_result path c t _ refl (ran started e)
  handled path c (done false t) started e h = given_up started e
  handled path c aborted started e h = absurd h
  handled path c fault started e h = absurd h
  handled path c unfinished started e h = absurd h

  -- send_report is one report, where the handler returns.
  pub send_report-Reports :
      (path : Bytes) (c : Context I W)
      → Returns (λ ok t. Unit {0}) (handler (prv_writer sdk) (after (put_state path c) c))
      → Returns (Reports path c) (send_report sdk path (some handler) c)
  unfolding send_report
  send_report-Reports path c returned = elim (Bool-cases (nonzero (put_state path c).0)) [
    | inl e ↦ rw e (not_started e)
    | inr e ↦ rw e (handled path c _ e refl returned)
  ]
