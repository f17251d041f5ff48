-- ===== src/Executor/Step/Frame.antt =====
-- The closures `_record` and `_finish` of `_execute_step`, and the dry run of a step.
pub mod Dry
use chain_weaver.Common.{
  ℕ, zero, suc, ◌-◌, String, Bool, true, false, Option, none, some, List, [], ◌∷◌, if◌then◌else◌,
}
use chain_weaver.Value.{Context, pos}
use chain_weaver.Tools.{History, Outcome, returned, raised, Tool, run_dry}
use chain_weaver.Contracts.Levels.{only_reads}
use chain_weaver.Executor.Types.{
  Error, flow_execution_error, Result, ok, RetryNote, ApprovalRecord, DecisionRecord, StepRecord,
  FlowStep, Event, step_end, Run, dry_skip, dry_abort, DryRunUnsupported, Executor,
}
use chain_weaver.Executor.Invoke.{wrap_tool_exception}

-- What `_record` reads from the method round it: `tool_attempts[0]`, `approval_record` and
-- `decision_record` beside the step's position and label.
pub record Frame : Type 0 where
  pub step_index : ℕ
  pub tool_name : String
  pub tool_attempts : ℕ
  pub approval : Option ApprovalRecord
  pub decision : Option DecisionRecord

unfoldable pub make_record :
    Frame → Context → Option Context → Option Error → Bool → Bool → List RetryNote → StepRecord
make_record f inputs outputs error success skipped retry_errors = record {
  step_index = pos f.step_index;
  tool_name = f.tool_name;
  inputs = inputs;
  outputs = outputs;
  error = error;
  success = success;
  retry_count = f.tool_attempts - 1;
  retry_errors = retry_errors;
  skipped = skipped;
  cached = false;
  fallback_used = false;
  fallback_tool_name = none;
  approval = f.approval;
  decision = f.decision;
}

abbrev pub failed : Frame → Context → Error → List RetryNote → StepRecord
failed f inputs e notes = make_record f inputs none (some e) false false notes

abbrev pub succeeded : Frame → Context → Context → List RetryNote → StepRecord
succeeded f inputs outputs notes = make_record f inputs (some outputs) none true false notes

abbrev pub fire : Event → Run → Run
fire e r = record r { events = e ∷ r.events }

abbrev pub set_calls : History → Run → Run
set_calls h r = record r { calls = h }

unfoldable pub finish : StepRecord → Run → Result StepRecord × Run
finish rec r = (ok rec, fire (step_end rec) r)

dry_outcome :
    Frame → Context → List RetryNote → Outcome Context × History → Option StepRecord × History
dry_outcome f inputs notes (returned outputs, h) = (some (succeeded f inputs outputs notes), h)
dry_outcome f inputs notes (raised e, h) =
    (some (failed f inputs (wrap_tool_exception f.tool_name f.step_index e) notes), h)

dry_unsupported : DryRunUnsupported → Frame → Context → List RetryNote → StepRecord
dry_unsupported dry_abort f inputs notes =
    failed f inputs
      (flow_execution_error f.tool_name f.step_index
        "dry-run abort: side-effecting tool declares no dry_run_fn")
      notes
dry_unsupported dry_skip f inputs notes = make_record f inputs (some []) none true true notes

dry_writing :
    Executor
    → Tool
    → Frame
    → Context
    → List RetryNote
    → Bool
    → History
    → Option StepRecord × History
dry_writing ex tool f inputs notes true h = dry_outcome f inputs notes (run_dry tool inputs h)
dry_writing ex tool f inputs notes false h =
    (some (dry_unsupported ex.dry_run_unsupported f inputs notes), h)

abbrev has_dry_run : Tool → Bool
has_dry_run tool =
    if tool.safety.supports_dry_run
    then (elim tool.dry_run_fn [ none ↦ false | some fn ↦ true ])
    else false

-- `_dry_run_step`: `none` where the step reads only and runs normally. The primary tool's dry
-- record lists no notes, a fallback's the notes so far.
unfoldable pub dry_run_step :
    Executor → Tool → Frame → Context → List RetryNote → History → Option StepRecord × History
unfolding dry_writing dry_outcome dry_unsupported make_record
dry_run_step ex tool f inputs notes h =
    if only_reads tool.safety.side_effects
    then (none, h)
    else dry_writing ex tool f inputs notes (has_dry_run tool) h
