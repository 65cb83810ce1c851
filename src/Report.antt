-- ===== src/Report.antt =====
-- Reporting the thing's state: prv_send_state, after a command, and prv_update_status, the task
-- that reports in every period.
pub mod Rounds
pub mod Task
use thing_if_thing_sdk.Prelude.{
  Bool, true, false, Bytes, codes, length, ℕ, zero, suc, ◌+◌, ◌*◌, ◌-◌, ◌^◌, ℤ, pos, negsuc,
  nonzero, Option, none, some, if◌then◌else◌, ltb, leb,
}
use thing_if_thing_sdk.Flow.{
  Outcome, done, aborted, fault, unfinished, Run, pure, gets, ◌>>=◌, ◌>>◌,
}
use thing_if_thing_sdk.Kii.{Kii, Sdk}
use thing_if_thing_sdk.Context.{Context, call}
use thing_if_thing_sdk.Request.{prv_writer}
use thing_if_thing_sdk.ResourcePath.{prv_set_state_resource_path}
use thing_if_thing_sdk.Thing.{StateHandler}

abbrev pub content_update_state : Bytes
content_update_state = codes "application/vnd.kii.MultipleTraitState+json"

-- `state_update_period * 1000` as the unsigned argument of the delay; `none` where the product is
-- outside the range of an int, which C leaves undefined.
unfoldable pub delay_of : ℤ → Option ℕ
delay_of (pos n) = if ltb (n * 1000) (2 ^ 31) then some (n * 1000) else none
delay_of (negsuc n) = if leb ((n + 1) * 1000) (2 ^ 31) then some (2 ^ 32 - (n + 1) * 1000) else none

module _ {I W : Type 0} (sdk : Sdk I W) where
  -- A call of a state handler; NULL cannot be called.
  abbrev pub call_state_handler : Option (StateHandler I W) → Run (Context I W) Bool
  call_state_handler none c = fault
  call_state_handler (some handler) c = handler (prv_writer sdk) c

  -- One report: start a request, let the handler write its body, and run it.
  unfoldable pub send_report : Bytes → Option (StateHandler I W) → Run (Context I W) Bool
  send_report resource_path handler = do
    failed ←
        call (sdk.kii_api_call_start (codes "PUT") resource_path (some content_update_state) true)
    if nonzero failed then pure false else do
      written ← call_state_handler handler
      if written
          then (do
            retval ← call sdk.kii_api_call_run
            if nonzero retval then pure false else pure true)
          else pure false

  -- `state_handler` is the state_handler_for_command_reaction of the instance that app_context
  -- points to.
  unfoldable pub prv_send_state : Option (StateHandler I W) → Run (Context I W) Bool
  unfolding send_report
  prv_send_state state_handler = do
    app_id ← gets (λ c. c.kii.app_id)
    author ← gets (λ c. c.kii.author)
    path ← prv_set_state_resource_path sdk.noassert app_id author.author_id 256
    elim path [ none ↦ pure false | some resource_path ↦ send_report resource_path state_handler ]

  -- kii->delay_ms_cb(period * 1000)
  delay : ℤ → Run (Context I W) (Unit {0})
  delay period c = elim (delay_of period) [
    | none ↦ fault
    | some msec ↦ elim c.kii.delay_ms_cb [
      | none ↦ fault
      | some delay_ms_cb ↦ done tt (record c { world = delay_ms_cb msec c.world })
    ]
  ]

  -- `while (1)`, on fuel: every `continue` and the end of the body lead to the next round.
  unfoldable pub report_loop :
      Bytes → ℤ → Option (StateHandler I W) → ℕ → Run (Context I W) (Unit {0})
  unfolding delay delay_of send_report
  report_loop resource_path period state_handler zero = λ c. unfinished
  report_loop resource_path period state_handler (suc fuel) =
      let rest = report_loop resource_path period state_handler fuel in
      do delay period; send_report resource_path state_handler; rest

  -- `period` and `state_handler` are the state_update_period and the state_handler_for_period of the
  -- instance that app_context points to. The loop has `fuel` rounds.
  unfoldable pub prv_update_status :
      ℤ → Option (StateHandler I W) → ℕ → Run (Context I W) (Unit {0})
  unfolding report_loop
  prv_update_status period state_handler fuel = do
    app_id ← gets (λ c. c.kii.app_id)
    author ← gets (λ c. c.kii.author)
    path ← prv_set_state_resource_path sdk.noassert app_id author.author_id 256
    elim path [
      | none ↦ pure tt
      | some resource_path ↦ report_loop resource_path period state_handler fuel
    ]
