-- ===== src/Dag/Run.antt =====
-- `_execute_dag_flow` of chainweaver/executor.py, of a flow whose steps invoke tools.
pub mod Calls
pub mod Log
pub mod Recovery
pub mod Tests
use chain_weaver.Common.{
  ℕ, suc, String, Bool, true, false, Option, none, some, List, [], ◌∷◌, ◌++◌, ◌==◌, ◌&&◌, not, all,
  map, contains, drop, length, if◌then◌else◌,
}
use chain_weaver.Dict.{lookup, insert, has, update}
use chain_weaver.Value.{Value, Context, ℤ, pos}
use chain_weaver.Tools.{Schema}
use chain_weaver.Executor.Types.{
  Error, flow_execution_error, no_outputs, unwrapped, Result, ok, raise, StepRecord, FlowStep, Flow,
  CollisionPolicy, Snapshot, FlowOutcome, aborted, Event, flow_start, Run, Executor,
}
use chain_weaver.Executor.Merge.{apply_output_mapping, merge_step_outputs}
use chain_weaver.Executor.Step.Frame.{fire}
use chain_weaver.Executor.Step.Body.{execute_step}
use chain_weaver.Executor.Result.{
  Job, Cancel, never, scoped, give_up, check_cancellation, validate_flow_schema,
  flow_input_step_index, finish_flow, snapshot_of,
}
use chain_weaver.Executor.Linear.{unless_cancelled}
use chain_weaver.Executor.Resume.{load_snapshot_for_resume}
use chain_weaver.Dag.Levels.{Sorter}
use chain_weaver.Dag.Topology.{ConditionalEdge, DagStep, dependents}
use chain_weaver.Dag.Branch.{
  Selected, target, no_branch, bad_predicate, unevaluated, Evaluator, select_branch,
}
use chain_weaver.Dag.Group.{compute_dag_levels}

pub record DagFlow : Type 0 where
  pub name : String
  pub version : String
  pub steps : List DagStep
  pub input_schema : Option Schema
  pub output_schema : Option Schema
  pub context_schema : Option Schema
  pub on_context_collision : CollisionPolicy

-- What the methods that both kinds of flow share read of the flow.
abbrev pub flow_of : DagFlow → Flow
flow_of dag = record {
  name = dag.name;
  version = dag.version;
  steps = map (λ s. s.work) dag.steps;
  input_schema = dag.input_schema;
  output_schema = dag.output_schema;
  context_schema = dag.context_schema;
  on_context_collision = dag.on_context_collision;
}

-- `proxy`: the step without its output mapping.
abbrev pub proxy : DagStep → FlowStep
proxy s = record s.work { output_mapping = none }

-- The variables of one level's loop, and of the loop over the levels.
pub record LevelState : Type 0 where
  pub outputs : Context
  pub records : List StepRecord
  pub skipped : List String
  pub flat_index : ℕ

pub record DagState : Type 0 where
  pub context : Context
  pub log : List StepRecord
  pub skipped : List String
  pub flat_index : ℕ

-- The loop over a level goes on, or the run is over.
pub data Progress : Type 0 where
  going : LevelState → Run → Progress
  over : FlowOutcome × Run → Progress

-- The record of a step that a branch has skipped.
unfoldable pub skipped_record : ℕ → String → StepRecord
skipped_record i name = record {
  step_index = pos i;
  tool_name = name;
  inputs = [];
  outputs = some [];
  error = none;
  success = true;
  retry_count = 0;
  retry_errors = [];
  skipped = true;
  cached = false;
  fallback_used = false;
  fallback_tool_name = none;
  approval = none;
  decision = none;
}

-- `record_conflict` and `record_failed`: a record made anew in the place of the step's own.
unfoldable pub failed_record : StepRecord → String → Error → StepRecord
failed_record rec name e = record {
  step_index = rec.step_index;
  tool_name = name;
  inputs = rec.inputs;
  outputs = none;
  error = some e;
  success = false;
  retry_count = 0;
  retry_errors = [];
  skipped = false;
  cached = false;
  fallback_used = false;
  fallback_tool_name = none;
  approval = none;
  decision = none;
}

-- The loop over `mapped_outputs.items()`.
pub data Added : Type 0 where
  added : Context → Added
  conflict : String → Added

unfoldable pub add_outputs : Context → Context → Added
add_outputs outputs [] = added outputs
add_outputs outputs ((k, v) ∷ mapped) =
    let rest = add_outputs (insert k v outputs) mapped in if has k outputs then conflict k else rest

-- `skipped_ids.add(dep_id)` for the dependents that were not selected.
unfoldable pub skip_others : String → List String → List String → List String
skip_others selected [] skipped = skipped
skip_others selected (dep ∷ deps) skipped =
    let rest = skip_others selected deps skipped in if dep == selected then rest else dep ∷ rest

abbrev pub is_empty {ℓ} : {A : Type ℓ} → List A → Bool
is_empty [] = true
is_empty (x ∷ xs) = false

-- Skip propagation: a step all of whose predecessors are skipped.
unfoldable pub propagated : DagStep → List String → List String
propagated s skipped =
    if not (contains s.step_id skipped)
      && (not (is_empty s.depends_on) && all (λ d. contains d skipped) s.depends_on)
    then s.step_id ∷ skipped
    else skipped

module _ (evaluate : Evaluator) (job : Job) (steps : List DagStep) (context : Context)
    (log : List StepRecord) (s : DagStep) (st : LevelState) where
  -- `return self._make_result(success=False, ...)` with the level's records in the log.
  unfoldable pub over_with : List StepRecord → Run → Progress
  over_with records r = over (give_up job (log ++ records) r)

  unfoldable pub after_branch : Context → StepRecord → Run → Selected → Progress
  unfolding over_with
  after_branch outputs rec r no_branch =
      going
        (record st {
          outputs = outputs;
          records = st.records ++ rec ∷ [];
          flat_index = suc st.flat_index;
        })
        r
  after_branch outputs rec r (target selected) =
      going
        (record {
          outputs = outputs;
          records = st.records ++ rec ∷ [];
          skipped = skip_others selected (dependents steps s.step_id) st.skipped;
          flat_index = suc st.flat_index;
        })
        r
  after_branch outputs rec r (unevaluated e) = over (aborted (unwrapped e), r)
  after_branch outputs rec r (bad_predicate e) =
      over_with (st.records ++ failed_record rec s.work.tool_name e ∷ []) r

  abbrev pub branch_of : List ConditionalEdge → Context → Context → Selected
  branch_of [] outputs mapped = no_branch
  branch_of (edge ∷ edges) outputs mapped = select_branch evaluate s context outputs (some mapped)

  unfoldable pub after_added : Context → StepRecord → Run → Added → Progress
  unfolding after_branch over_with
  after_added mapped rec r (conflict k) =
      over_with
        (st.records
          ++ failed_record rec s.work.tool_name
              (flow_execution_error s.work.tool_name st.flat_index k)
            ∷ [])
        r
  after_added mapped rec r (added outputs) =
      after_branch outputs rec r (branch_of s.branches outputs mapped)

  unfoldable pub after_projection : StepRecord → Run → Result Context → Progress
  unfolding after_added
  after_projection rec r (raise e) = over (aborted e, r)
  after_projection rec r (ok mapped) = after_added mapped rec r (add_outputs st.outputs mapped)

  unfoldable pub after_dag_outputs : StepRecord → Run → Option Context → Progress
  unfolding after_projection
  after_dag_outputs rec r none = over (aborted (no_outputs st.flat_index), r)
  after_dag_outputs rec r (some outputs) =
      after_projection rec r
        (apply_output_mapping s.work.tool_name st.flat_index outputs s.work.output_mapping)

  unfoldable pub after_dag_step : Result StepRecord × Run → Progress
  unfolding after_dag_outputs over_with
  after_dag_step (raise e, r) = over (aborted e, r)
  after_dag_step (ok rec, r) =
      if rec.success
      then after_dag_outputs rec r rec.outputs
      else over_with (st.records ++ rec ∷ []) r

module _ (evaluate : Evaluator) (job : Job) (steps : List DagStep) (context : Context)
    (log : List StepRecord) where
  abbrev pub skip_step : DagStep → LevelState → LevelState
  skip_step s st = record st {
    records = st.records ++ skipped_record st.flat_index s.work.tool_name ∷ [];
    flat_index = suc st.flat_index;
  }

  -- The body of `for step in level_steps`, once the skips are propagated.
  unfoldable pub dag_step : DagStep → LevelState → Run → Progress
  unfolding after_dag_step
  dag_step s st r =
      if contains s.step_id st.skipped
      then going (skip_step s st) r
      else after_dag_step evaluate job steps context log s st
          (execute_step job.ex job.flow.name st.flat_index (proxy s) context r)

  abbrev pub propagate : DagStep → LevelState → LevelState
  propagate s st = record st { skipped = propagated s st.skipped }

  unfoldable pub run_level : List DagStep → Progress → Progress
  unfolding dag_step
  run_level [] p = p
  run_level (s ∷ level) (over out) = over out
  run_level (s ∷ level) (going st r) = run_level level (dag_step s (propagate s st) r)

abbrev pub DagRest : Type 0
DagRest = DagState → Run → FlowOutcome × Run

module _ (job : Job) where
  -- `_save_dag_snapshot`
  unfoldable pub save_dag_snapshot : Context → List StepRecord → ℕ → Run → Run
  save_dag_snapshot context log levels r =
      if job.ex.checkpointer && not job.ex.dry_run
      then record r {
        snapshots = insert job.trace_id (snapshot_of job context log 0 levels) r.snapshots;
      }
      else r

  unfoldable pub after_level_merge :
      ℕ → DagRest → List StepRecord → LevelState → Run → Result Context → FlowOutcome × Run
  unfolding save_dag_snapshot
  after_level_merge i rest log lv r (raise e) = (aborted e, r)
  after_level_merge i rest log lv r (ok context) =
      rest
        (record { context = context; log = log; skipped = lv.skipped; flat_index = lv.flat_index })
        (save_dag_snapshot context log (suc i) r)

  unfoldable pub after_level : ℕ → DagRest → DagState → Progress → FlowOutcome × Run
  unfolding after_level_merge
  after_level i rest st (over out) = out
  after_level i rest st (going lv r) =
      after_level_merge i rest (st.log ++ lv.records) lv r
        (merge_step_outputs job.flow.on_context_collision "DAG level" i st.context lv.outputs none)

abbrev pub level_start : DagState → LevelState
level_start st = record {
  outputs = [];
  records = [];
  skipped = st.skipped;
  flat_index = st.flat_index;
}

module _ (evaluate : Evaluator) (job : Job) (steps : List DagStep) (cancel : Cancel) where
  -- One level, up to the next boundary.
  unfoldable pub take_level : ℕ → DagRest → List DagStep → DagRest
  take_level i rest level st r =
      after_level job i rest st
        (run_level evaluate job steps st.context st.log level (going (level_start st) r))

  -- `for relative_level_idx, level_steps in enumerate(levels[start_level:])`
  unfoldable pub run_levels : ℕ → List (List DagStep) → DagRest
  unfolding take_level
  run_levels i [] st r = finish_flow job st.context st.log r
  run_levels i (level ∷ levels) st r =
      unless_cancelled job cancel (check_cancellation job cancel st.flat_index st.log r)
        (take_level i (run_levels (suc i) levels) level st r)

  -- From the levels on, with `start_level` of them done.
  unfoldable pub with_levels : ℕ → DagState → Run → Result (List (List DagStep)) → FlowOutcome × Run
  unfolding run_levels
  with_levels start st r (raise e) = (aborted e, r)
  with_levels start st r (ok levels) = run_levels start (drop start levels) st r

abbrev pub dag_job : Executor → DagFlow → String → Context → Job
dag_job ex dag trace_id initial_input = record {
  ex = ex;
  flow = flow_of dag;
  trace_id = trace_id;
  initial_input = initial_input;
}

abbrev pub fresh_state : Context → DagState
fresh_state context = record { context = context; log = []; skipped = []; flat_index = 0 }

module _ (evaluate : Evaluator) (static_order : Sorter) (ex : Executor) (dag : DagFlow) where
  unfoldable pub after_dag_schema :
      Job → Cancel → Result (Option StepRecord) → Run → FlowOutcome × Run
  unfolding with_levels
  after_dag_schema job cancel (raise e) r = (aborted e, r)
  after_dag_schema job cancel (ok (some rec)) r = give_up job (rec ∷ []) r
  after_dag_schema job cancel (ok none) r =
      with_levels evaluate job dag.steps cancel 0
        (fresh_state (update job.initial_input job.ex.dynamic_params)) r
        (compute_dag_levels static_order dag.name dag.steps)

  -- `_execute_dag_flow` in a fresh run scope.
  unfoldable pub execute_dag_flow : String → Context → Cancel → Run → FlowOutcome × Run
  unfolding after_dag_schema
  execute_dag_flow trace_id initial_input cancel r =
      let job = dag_job ex dag trace_id initial_input in
      after_dag_schema job cancel
        (validate_flow_schema job dag.input_schema (flow_input_step_index job) "flow_input"
          initial_input)
        (fire (flow_start dag.name (length dag.steps)) (scoped r))

  -- The variables that a resume starts with: no step is skipped.
  abbrev pub resumed_state : Snapshot → DagState
  resumed_state snapshot = record {
    context = snapshot.context;
    log = snapshot.execution_log;
    skipped = [];
    flat_index = length snapshot.execution_log;
  }

  -- `_resume_dag_flow`: the same method, with the resume slot set.
  unfoldable pub resume_dag_flow : Snapshot → Run → FlowOutcome × Run
  unfolding with_levels
  resume_dag_flow snapshot r =
      with_levels evaluate (dag_job ex dag snapshot.trace_id snapshot.initial_input) dag.steps never
        snapshot.completed_dag_levels (resumed_state snapshot)
        (fire (flow_start dag.name (length dag.steps)) r)
        (compute_dag_levels static_order dag.name dag.steps)

  -- `resume_flow` of this flow, in a scope whose decision count is `outer`.
  unfoldable pub resume_dag_loaded : Result (Flow × Snapshot) → Run → FlowOutcome × Run
  unfolding resume_dag_flow
  resume_dag_loaded (raise e) r = (aborted e, r)
  resume_dag_loaded (ok (flow, snapshot)) r = resume_dag_flow snapshot r

  unfoldable pub resume_dag : (String → Option Flow) → String → ℕ → Run → FlowOutcome × Run
  unfolding resume_dag_loaded
  resume_dag get_flow trace_id outer r =
      resume_dag_loaded (load_snapshot_for_resume ex get_flow trace_id r)
        (record r { decision_count = outer })
