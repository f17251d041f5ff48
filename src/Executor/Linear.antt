-- ===== src/Executor/Linear.antt =====
-- The linear path of `_execute_flow_impl` of chainweaver/executor.py.
pub mod Log
pub mod Calls
pub mod Next
use chain_weaver.Common.{
  ℕ, suc, String, Bool, true, false, Option, none, some, List, [], ◌∷◌, ◌++◌, length, if◌then◌else◌,
}
use chain_weaver.Dict.{update}
use chain_weaver.Value.{Context, pos}
use chain_weaver.Executor.Types.{
  Error, no_outputs, Result, ok, raise, StepRecord, FlowStep, Flow, FlowOutcome, aborted, Event,
  flow_start, Run, Executor,
}
use chain_weaver.Executor.Merge.{merge_step_outputs}
use chain_weaver.Executor.Step.Frame.{fire}
use chain_weaver.Executor.Step.Body.{execute_step}
use chain_weaver.Executor.Result.{
  Job, Cancel, scoped, give_up, check_cancellation, validate_flow_schema, flow_input_step_index,
  finish_flow, save_linear_snapshot,
}

-- The rest of the loop, given the context, the log and the state that a step leaves.
abbrev pub Rest : Type 0
Rest = Context → List StepRecord → Run → FlowOutcome × Run

module _ (job : Job) (i : ℕ) where
  -- The checkpoint after the merge, and the next step.
  unfoldable pub after_merge : Rest → List StepRecord → Run → Result Context → FlowOutcome × Run
  after_merge rest log r (raise e) = (aborted e, r)
  after_merge rest log r (ok context) =
      rest context log (save_linear_snapshot job context log (suc i) r)

  unfoldable pub after_outputs :
      Rest → FlowStep → Context → List StepRecord → Run → Option Context → FlowOutcome × Run
  after_outputs rest step context log r none = (aborted (no_outputs i), r)
  after_outputs rest step context log r (some outputs) = after_merge rest log r (
      merge_step_outputs job.flow.on_context_collision step.tool_name i context outputs
        step.output_mapping)

  unfoldable pub after_step :
      Rest → FlowStep → Context → List StepRecord → Result StepRecord × Run → FlowOutcome × Run
  unfolding after_outputs after_merge
  after_step rest step context log (raise e, r) = (aborted e, r)
  after_step rest step context log (ok rec, r) =
      let log' = log ++ rec ∷ [] in
      if rec.success then after_outputs rest step context log' r rec.outputs else give_up job log' r

  unfoldable pub take_step : Rest → FlowStep → Rest
  unfolding after_step
  take_step rest step context log r =
      after_step rest step context log (execute_step job.ex job.flow.name i step context r)

module _ (job : Job) (cancel : Cancel) where
  unfoldable pub unless_cancelled :
      Option (FlowOutcome × Run) → FlowOutcome × Run → FlowOutcome × Run
  unless_cancelled none go_on = go_on
  unless_cancelled (some stopped) go_on = stopped

  -- `for idx, step in enumerate(flow.steps)`, from the index `i` on.
  unfoldable pub run_steps : ℕ → List FlowStep → Rest
  unfolding take_step unless_cancelled
  run_steps i [] context log r = finish_flow job context log r
  run_steps i (step ∷ steps) context log r =
      unless_cancelled (check_cancellation job cancel i log r)
        (take_step job i (run_steps (suc i) steps) step context log r)

  unfoldable pub after_input_schema : Result (Option StepRecord) → Run → FlowOutcome × Run
  after_input_schema (raise e) r = (aborted e, r)
  after_input_schema (ok (some rec)) r = give_up job (rec ∷ []) r
  after_input_schema (ok none) r =
      run_steps 0 job.flow.steps (update job.initial_input job.ex.dynamic_params) [] r

  -- The path for a linear flow, after the flow is looked up and passed the status guard.
  unfoldable pub execute_linear : Run → FlowOutcome × Run
  unfolding after_input_schema run_steps
  execute_linear r =
      after_input_schema
        (validate_flow_schema job job.flow.input_schema (flow_input_step_index job) "flow_input"
          job.initial_input)
        (fire (flow_start job.flow.name (length job.flow.steps)) (scoped r))
