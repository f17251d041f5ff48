-- ===== src/Executor/Result.antt =====
-- What surrounds the steps of a flow in chainweaver/executor.py: the result of a run, cooperative
-- cancellation, flow-level schemas, and snapshots.
pub mod Keeps
use chain_weaver.Common.{
  ℕ, ◌≤◌, String, Bool, true, false, Option, none, some, List, [], ◌∷◌, ◌++◌, ◌&&◌, ◌||◌, not, leb,
  length, if◌then◌else◌,
}
use chain_weaver.Dict.{Dict, lookup, insert, remove, update}
use chain_weaver.Value.{ℤ, pos, negsuc, Context}
use chain_weaver.Tools.{Schema, Tool}
use chain_weaver.Executor.Types.{
  Error, schema_validation_error, StepRecord, FlowStep, Flow, ExecutionResult, Snapshot,
  FlowOutcome, completed, cancelled, aborted, Result, ok, raise, caught_validation, Event, flow_end,
  Run, Executor,
}
use chain_weaver.Executor.Step.Frame.{fire}

-- What does not change while one flow runs: the executor, the flow, the trace and the input.
pub record Job : Type 0 where
  pub ex : Executor
  pub flow : Flow
  pub trace_id : String
  pub initial_input : Context

-- `deadline` and `cancel_token` of a run, with what the clock shows and whether the token is set at
-- each boundary between steps.
pub record Cancel : Type 0 where
  pub deadline : Option ℕ
  pub clock : ℕ → ℕ
  pub token : Option (ℕ → Bool)

-- Neither a deadline nor a token.
abbrev pub never : Cancel
never = record { deadline = none; clock = λ i. 0; token = none }

abbrev pub deadline_exceeded : Cancel → ℕ → Bool
deadline_exceeded c i = elim c.deadline [ none ↦ false | some d ↦ leb d (c.clock i) ]

abbrev pub token_cancelled : Cancel → ℕ → Bool
token_cancelled c i = elim c.token [ none ↦ false | some is_set ↦ is_set i ]

-- `_run_scope`: each call of `execute_flow` counts its decisions from 0. What the count is after the
-- call is the caller's again; no run reads what is left here.
abbrev pub scoped : Run → Run
scoped r = record r { decision_count = 0 }

module _ (job : Job) where
  abbrev pub result_of : Bool → Option Context → List StepRecord → ExecutionResult
  result_of success final_output log = record {
    flow_name = job.flow.name;
    flow_version = job.flow.version;
    success = success;
    final_output = final_output;
    execution_log = log;
    trace_id = job.trace_id;
    initial_input = job.initial_input;
    dry_run = job.ex.dry_run;
  }

  -- On terminal success the snapshot is deleted.
  abbrev forget : Bool → Run → Run
  forget success r =
      if job.ex.checkpointer && (job.ex.delete_on_success && success)
      then record r { snapshots = remove job.trace_id r.snapshots }
      else r

  -- `_make_result`, without the cost report and the trace recorder.
  unfoldable pub make_result : Bool → Option Context → List StepRecord → Run → ExecutionResult × Run
  make_result success final_output log r =
      let result = result_of success final_output log in
      (result, fire (flow_end result) (forget success r))

  abbrev complete : ExecutionResult × Run → FlowOutcome × Run
  complete (result, r) = (completed result, r)

  -- `return self._make_result(success=False, ...)`
  unfoldable pub give_up : List StepRecord → Run → FlowOutcome × Run
  unfolding make_result
  give_up log r = complete (make_result false none log r)

  abbrev cancel_with : ℕ → Bool → Bool → ExecutionResult × Run → FlowOutcome × Run
  cancel_with i deadline token (partial, r) = (cancelled i deadline token partial, r)

  -- `_check_cancellation`: `none` where the run goes on.
  unfoldable pub check_cancellation :
      Cancel → ℕ → List StepRecord → Run → Option (FlowOutcome × Run)
  unfolding make_result
  check_cancellation c i log r =
      let deadline = deadline_exceeded c i in
      let token = token_cancelled c i in
      if deadline || token
      then some (cancel_with i deadline token (make_result false none log r))
      else none

  unfoldable pub schema_record :
      ℤ → String → Context → Result (Option Context) → Result (Option StepRecord)
  schema_record i label payload (raise e) = raise e
  schema_record i label payload (ok (some dumped)) = ok none
  schema_record i label payload (ok none) = ok (
      some (record {
        step_index = i;
        tool_name = job.flow.name;
        inputs = payload;
        outputs = none;
        error = some (schema_validation_error job.flow.name i label);
        success = false;
        retry_count = 0;
        retry_errors = [];
        skipped = false;
        cached = false;
        fallback_used = false;
        fallback_tool_name = none;
        approval = none;
        decision = none;
      }))

  -- `_validate_flow_schema`, where the flow has the schema.
  unfoldable pub validate_flow_schema :
      Option Schema → ℤ → String → Context → Result (Option StepRecord)
  unfolding schema_record
  validate_flow_schema none i label payload = ok none
  validate_flow_schema (some schema) i label payload =
      schema_record i label payload (caught_validation (schema payload))

  -- FLOW_INPUT_STEP_INDEX and `flow_output_step_index`
  abbrev pub flow_input_step_index : ℤ
  flow_input_step_index = negsuc 0

  abbrev pub flow_output_step_index : ℤ
  flow_output_step_index = pos (length job.flow.steps)

  -- The end of a run: the output schema, the context schema, then success.
  unfoldable pub after_context_schema :
      Result (Option StepRecord) → Context → List StepRecord → Run → FlowOutcome × Run
  after_context_schema (raise e) context log r = (aborted e, r)
  after_context_schema (ok (some rec)) context log r = give_up (log ++ rec ∷ []) r
  after_context_schema (ok none) context log r = complete (make_result true (some context) log r)

  unfoldable pub after_output_schema :
      Result (Option StepRecord) → Context → List StepRecord → Run → FlowOutcome × Run
  after_output_schema (raise e) context log r = (aborted e, r)
  after_output_schema (ok (some rec)) context log r = give_up (log ++ rec ∷ []) r
  after_output_schema (ok none) context log r =
      after_context_schema
        (validate_flow_schema job.flow.context_schema flow_output_step_index "flow_context" context)
        context log r

  unfoldable pub finish_flow : Context → List StepRecord → Run → FlowOutcome × Run
  unfolding after_output_schema after_context_schema give_up validate_flow_schema
  finish_flow context log r =
      after_output_schema
        (validate_flow_schema job.flow.output_schema flow_output_step_index "flow_output" context)
        context log r

-- `{step.display_name: tool.schema_hash}` over the steps whose tool is registered.
unfoldable pub tool_hashes : Dict Tool → Dict String → List FlowStep → Dict String
tool_hashes tools hashes [] = hashes
tool_hashes tools hashes (step ∷ steps) =
    let hashes' : Dict String = elim (lookup step.tool_name tools) [
      | none ↦ hashes
      | some tool ↦ insert step.tool_name tool.schema_hash hashes
    ] in
    tool_hashes tools hashes' steps

-- SNAPSHOT_VERSION
abbrev pub snapshot_version : String
snapshot_version = "1"

module _ (job : Job) where
  unfoldable pub snapshot_of : Context → List StepRecord → (steps levels : ℕ) → Snapshot
  unfolding tool_hashes
  snapshot_of context log steps levels = record {
    trace_id = job.trace_id;
    flow_name = job.flow.name;
    flow_version = job.flow.version;
    initial_input = job.initial_input;
    context = context;
    execution_log = log;
    snapshot_version = snapshot_version;
    completed_steps = steps;
    completed_dag_levels = levels;
    tool_schema_hashes = tool_hashes job.ex.tools [] job.flow.steps;
  }

  -- `_save_linear_snapshot`: not without a checkpointer, and not in a dry run.
  unfoldable pub save_linear_snapshot : Context → List StepRecord → ℕ → Run → Run
  unfolding snapshot_of
  save_linear_snapshot context log steps r =
      if job.ex.checkpointer && not job.ex.dry_run
      then record r {
        snapshots = insert job.trace_id (snapshot_of context log steps 0) r.snapshots;
      }
      else r
