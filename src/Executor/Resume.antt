-- ===== src/Executor/Resume.antt =====
-- `resume_flow` of chainweaver/executor.py for linear flows: the guards on the snapshot, and the
-- loop that goes on from it.
pub mod Sound
pub mod Drift
pub mod Recovery
pub mod Collision
pub mod Cancel
use chain_weaver.Common.{
  ℕ, suc, String, Bool, true, false, Option, none, some, List, [], ◌∷◌, ◌++◌, ◌==◌, drop, length,
  if◌then◌else◌,
}
use chain_weaver.Dict.{Dict, lookup, update}
use chain_weaver.Value.{Context, pos}
use chain_weaver.Tools.{Tool}
use chain_weaver.Executor.Types.{
  Error, checkpointer_not_configured, checkpoint_not_found, checkpoint_version, checkpoint_drift,
  flow_not_found, no_outputs, Result, ok, raise, StepRecord, FlowStep, Flow, FlowOutcome, aborted,
  Snapshot, Event, flow_start, Run, Executor,
}
use chain_weaver.Executor.Merge.{apply_output_mapping}
use chain_weaver.Executor.Step.Frame.{fire}
use chain_weaver.Executor.Step.Body.{execute_step}
use chain_weaver.Executor.Result.{Job, give_up, finish_flow, save_linear_snapshot, snapshot_version}
use chain_weaver.Versions.{same_major}
use chain_weaver.Executor.Linear.{Rest}

module _ (job : Job) (i : ℕ) where
  -- `context.update(apply_output_mapping(...))`, the checkpoint, and the next step.
  unfoldable pub after_mapping :
      Rest → Context → List StepRecord → Run → Result Context → FlowOutcome × Run
  after_mapping rest context log r (raise e) = (aborted e, r)
  after_mapping rest context log r (ok outputs) =
      let context' = update context outputs in
      rest context' log (save_linear_snapshot job context' log (suc i) r)

  unfoldable pub resume_outputs :
      Rest → FlowStep → Context → List StepRecord → Run → Option Context → FlowOutcome × Run
  resume_outputs rest step context log r none = (aborted (no_outputs i), r)
  resume_outputs rest step context log r (some outputs) =
      after_mapping rest context log r
        (apply_output_mapping step.tool_name i outputs step.output_mapping)

  unfoldable pub resume_after :
      Rest → FlowStep → Context → List StepRecord → Result StepRecord × Run → FlowOutcome × Run
  unfolding resume_outputs after_mapping
  resume_after rest step context log (raise e, r) = (aborted e, r)
  resume_after rest step context log (ok rec, r) =
      let log' = log ++ rec ∷ [] in
      if rec.success
      then resume_outputs rest step context log' r rec.outputs
      else give_up job log' r

module _ (job : Job) where
  -- `for idx in range(snapshot.completed_steps, len(flow.steps))`
  unfoldable pub resume_steps : ℕ → List FlowStep → Rest
  unfolding resume_after
  resume_steps i [] context log r = finish_flow job context log r
  resume_steps i (step ∷ steps) context log r =
      resume_after job i (resume_steps (suc i) steps) step context log
        (execute_step job.ex job.flow.name i step context r)

abbrev pub job_of : Executor → Flow → Snapshot → Job
job_of ex flow snapshot = record {
  ex = ex;
  flow = flow;
  trace_id = snapshot.trace_id;
  initial_input = snapshot.initial_input;
}

-- `_resume_linear_flow`
unfoldable pub resume_linear_flow : Executor → Flow → Snapshot → Run → FlowOutcome × Run
unfolding resume_steps
resume_linear_flow ex flow snapshot r =
    resume_steps (job_of ex flow snapshot) snapshot.completed_steps
      (drop snapshot.completed_steps flow.steps) snapshot.context snapshot.execution_log
      (fire (flow_start snapshot.flow_name (length flow.steps)) r)

-- One entry of `snapshot.tool_schema_hashes`, given what the rest of the loop finds.
unfoldable pub drift_of : String → String → String → Option Error → Option Tool → Option Error
drift_of trace_id name hash rest none = some (checkpoint_drift trace_id name)
drift_of trace_id name hash rest (some tool) =
    if tool.schema_hash == hash then rest else some (checkpoint_drift trace_id name)

-- The loop over `snapshot.tool_schema_hashes.items()`
unfoldable pub first_drift : Dict Tool → String → Dict String → Option Error
unfolding drift_of
first_drift tools trace_id [] = none
first_drift tools trace_id ((name, hash) ∷ hashes) =
    drift_of trace_id name hash (first_drift tools trace_id hashes) (lookup name tools)

-- The guards of `_load_snapshot_for_resume` after the snapshot is loaded, and those before.
unfoldable pub check_flow : Executor → String → Snapshot → Option Flow → Result (Flow × Snapshot)
unfolding first_drift
check_flow ex trace_id snapshot none = raise (flow_not_found snapshot.flow_name)
check_flow ex trace_id snapshot (some flow) =
    let drift = first_drift ex.tools trace_id snapshot.tool_schema_hashes in
    if flow.version == snapshot.flow_version
    then (elim drift [ none ↦ ok (flow, snapshot) | some e ↦ raise e ])
    else raise (checkpoint_drift trace_id snapshot.flow_name)

unfoldable pub check_snapshot :
    Executor → (String → Option Flow) → String → Option Snapshot → Result (Flow × Snapshot)
unfolding check_flow
check_snapshot ex get_flow trace_id none = raise (checkpoint_not_found trace_id)
check_snapshot ex get_flow trace_id (some snapshot) =
    if same_major ex.int_of (some snapshot.snapshot_version) snapshot_version
    then check_flow ex trace_id snapshot (get_flow snapshot.flow_name)
    else raise (checkpoint_version trace_id snapshot.snapshot_version)

-- `get_flow` is the registry's lookup of the latest version.
unfoldable pub load_snapshot_for_resume :
    Executor → (String → Option Flow) → String → Run → Result (Flow × Snapshot)
unfolding check_snapshot
load_snapshot_for_resume ex get_flow trace_id r =
    if ex.checkpointer
    then check_snapshot ex get_flow trace_id (lookup trace_id r.snapshots)
    else raise checkpointer_not_configured

unfoldable pub resume_loaded : Executor → Result (Flow × Snapshot) → Run → FlowOutcome × Run
resume_loaded ex (raise e) r = (aborted e, r)
resume_loaded ex (ok (flow, snapshot)) r = resume_linear_flow ex flow snapshot r

-- `resume_flow` of a linear flow. It binds no run scope: its decisions are counted on from `outer`,
-- the count in the scope where it is called, 0 in a fresh process.
unfoldable pub resume_flow :
    Executor → (String → Option Flow) → String → ℕ → Run → FlowOutcome × Run
unfolding resume_loaded
resume_flow ex get_flow trace_id outer r =
    resume_loaded ex (load_snapshot_for_resume ex get_flow trace_id r)
      (record r { decision_count = outer })
