-- ===== src/Executor/Step/Body.antt =====
-- The phases of `_execute_step` after the decision, from the last to the first.
pub mod Post
pub mod Whole
use Prim.Native.String.{◌++◌ as text_append}
use chain_weaver.Common.{
  ℕ, String, Bool, true, false, Option, none, some, List, [], ◌∷◌, ◌&&◌, not, if◌then◌else◌,
}
use chain_weaver.Dict.{Dict, lookup, insert}
use chain_weaver.Value.{Context, pos}
use chain_weaver.Tools.{History, Exc, Outcome, returned, raised, Tool}
use chain_weaver.Executor.Types.{
  Error, tool_not_found, RetryNote, Result, ok, raise, caught_validation, ApprovalRecord,
  DecisionRecord, StepRecord, FlowStep, Attempts, Event, step_start, Run, Executor,
}
use chain_weaver.Executor.Inputs.{resolve_inputs, check_step_contract}
use chain_weaver.Executor.Gate.{Gated, evaluate_safety_gate, evaluate_input_guardrail}
use chain_weaver.Executor.Invoke.{wrap_tool_exception, invoke_tool}
use chain_weaver.Executor.Step.Frame.{
  Frame, make_record, failed, succeeded, fire, set_calls, finish, dry_run_step,
}
use chain_weaver.Executor.Step.OnError.{apply_on_error}
use chain_weaver.Executor.Step.Decision.{Resolution, run_tool, step_failed, resolve_decision}

-- StepCacheKey.digest
unfoldable pub digest : String → String → String → String
digest tool_name schema_hash input_value_hash =
    text_append tool_name
      (text_append "|" (text_append schema_hash (text_append "|" input_value_hash)))

module _ (ex : Executor) (flow_name : String) (step : FlowStep) (tool : Tool)
    (inputs : Context) where
  abbrev store : Option String → Context → Run → Run
  store none outputs r = r
  store (some key) outputs r = record r { cache = insert key outputs r.cache }

  -- The output contract, the cache write and the successful record.
  after_contract :
      Frame
      → Option String
      → Context
      → List RetryNote
      → Result (Option Error)
      → Run
      → Result StepRecord × Run
  after_contract f key outputs notes (raise e) r = (raise e, r)
  after_contract f key outputs notes (ok (some e)) r = finish (failed f inputs e notes) r
  after_contract f key outputs notes (ok none) r =
      finish (succeeded f inputs outputs notes) (store key outputs r)

  after_error : StepRecord × History → Run → Result StepRecord × Run
  after_error (rec, h) r = finish rec (set_calls h r)

  -- What follows the invocation: `on_error`, or the output contract.
  after_invoke : Frame → Option String → Run → Outcome Context × Attempts → Result StepRecord × Run
  after_invoke f key r (raised e, a) =
      let f' = record f { tool_attempts = a.count } in
      after_error
        (apply_on_error ex flow_name inputs f' step.on_error
          (wrap_tool_exception f.tool_name f.step_index e) a.errors a.calls)
        r
  after_invoke f key r (returned outputs, a) =
      let f' = record f { tool_attempts = a.count } in
      after_contract f' key outputs a.errors
        (check_step_contract f.tool_name f.step_index step.output_contract outputs
          "step_output_contract")
        (set_calls a.calls r)

  unfoldable pub run_live : Frame → Option String → Run → Result StepRecord × Run
  unfolding after_invoke after_error after_contract finish make_record
  run_live f key r =
      after_invoke f key r
        (invoke_tool ex tool inputs step.retry (record { calls = r.calls; count = 0; errors = [] }))

  -- A hit is checked against the step's own output contract.
  after_hit : Frame → Context → Result (Option Error) → Run → Result StepRecord × Run
  after_hit f cached (raise e) r = (raise e, r)
  after_hit f cached (ok (some e)) r = finish (failed f inputs e []) r
  after_hit f cached (ok none) r =
      finish (record (succeeded f inputs cached []) { cached = true }) r

  after_lookup : Frame → String → Option Context → Run → Result StepRecord × Run
  after_lookup f key none r = run_live f (some key) r
  after_lookup f key (some cached) r =
      after_hit f cached
        (check_step_contract f.tool_name f.step_index step.output_contract cached
          "step_output_contract")
        r

  after_validation : Frame → Result (Option Context) → Run → Result StepRecord × Run
  after_validation f (raise e) r = (raise e, r)
  after_validation f (ok none) r = run_live f none r
  after_validation f (ok (some validated)) r =
      let key = digest tool.name tool.schema_hash (ex.input_value_hash validated) in
      after_lookup f key (lookup key r.cache) r

  abbrev uses_cache : Bool
  uses_cache = ex.step_cache && (tool.cacheable && (not ex.in_replay && not ex.dry_run))

  unfoldable pub run_cached : Frame → Run → Result StepRecord × Run
  unfolding after_validation after_lookup after_hit finish make_record
  run_cached f r =
      if uses_cache
      then after_validation f (caught_validation (tool.input_schema inputs)) r
      else run_live f none r

  after_dry : Frame → Run → Option StepRecord × History → Result StepRecord × Run
  after_dry f r (some rec, h) = finish rec (set_calls h r)
  after_dry f r (none, h) = run_cached f r

  -- The dry run, past the gate and the guardrail.
  unfoldable pub run_allowed : Frame → Run → Result StepRecord × Run
  unfolding after_dry finish
  run_allowed f r =
      if ex.dry_run
      then after_dry f r (dry_run_step ex tool f inputs [] r.calls)
      else run_cached f r

  after_guardrail : Frame → Option Error → Run → Result StepRecord × Run
  after_guardrail f (some e) r = finish (failed f inputs e []) r
  after_guardrail f none r = run_allowed f r

  after_gate : Frame → Gated → Run → Result StepRecord × Run
  after_gate f (some e, approval) r =
      finish (failed (record f { approval = approval }) inputs e []) r
  after_gate f (none, approval) r =
      after_guardrail (record f { approval = approval })
        (evaluate_input_guardrail ex flow_name f.step_index tool inputs r.calls) r

  -- From `step_start` on: the safety gate, then the guardrail.
  unfoldable pub run_gated : Frame → Run → Result StepRecord × Run
  unfolding after_gate after_guardrail finish make_record
  run_gated f r =
      after_gate f (evaluate_safety_gate ex flow_name f.step_index tool inputs r.calls)
        (fire (step_start (pos f.step_index) f.tool_name inputs) r)

module _ (ex : Executor) (flow_name : String) (step : FlowStep) where
  after_input_contract :
      Tool → Context → Frame → Result (Option Error) → Run → Result StepRecord × Run
  after_input_contract tool inputs f (raise e) r = (raise e, r)
  after_input_contract tool inputs f (ok (some e)) r = finish (failed f inputs e []) r
  after_input_contract tool inputs f (ok none) r = run_gated ex flow_name step tool inputs f r

  after_inputs : Tool → Frame → Result Context → Run → Result StepRecord × Run
  after_inputs tool f (raise e) r = finish (failed f [] e []) r
  after_inputs tool f (ok inputs) r =
      after_input_contract tool inputs f
        (check_step_contract f.tool_name f.step_index step.input_contract inputs
          "step_input_contract")
        r

  after_tool : Context → Frame → Option Tool → Run → Result StepRecord × Run
  after_tool context f none r = finish (failed f [] (tool_not_found f.tool_name) []) r
  after_tool context f (some tool) r =
      after_inputs tool f
        (resolve_inputs ex.int_of f.tool_name f.step_index step.input_mapping context) r

  -- From the lookup of the tool on.
  unfoldable pub run_step : Context → Frame → Run → Result StepRecord × Run
  unfolding after_tool after_inputs after_input_contract finish make_record
  run_step context f r = after_tool context f (lookup f.tool_name ex.tools) r

module _ (ex : Executor) (flow_name : String) (step_index : ℕ) (step : FlowStep)
    (context : Context) where
  after_decision : Result Resolution × Run → Result StepRecord × Run
  after_decision (raise e, r) = (raise e, r)
  after_decision (ok (step_failed rec), r) = (ok rec, r)
  after_decision (ok (run_tool name decision), r) =
      run_step ex flow_name step context
        (record {
          step_index = step_index;
          tool_name = name;
          tool_attempts = 0;
          approval = none;
          decision = decision;
        })
        r

  -- `_execute_step`. What raises through it is the decision budget, and what is raised by a contract
  -- or, with a cache, the validation of the inputs, and is not a validation error.
  unfoldable pub execute_step : Run → Result StepRecord × Run
  unfolding after_decision
  execute_step r = after_decision (resolve_decision ex flow_name step step_index context r)
