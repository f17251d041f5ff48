-- ===== src/Dag/Run/Calls.antt =====
-- The calls of a DAG run, against the calls that its executor may make.
use chain_weaver.Common.{
  ℕ, suc, String, Option, none, some, List, [], ◌∷◌, ◌++◌, ◌≡◌, inl, inr, arith, Bool-cases,
  contains, drop, length,
}
use chain_weaver.Value.{Context}
use chain_weaver.Tools.{Call, History}
use chain_weaver.Executor.Types.{Result, ok, raise, StepRecord, flow_start, Run, Executor}
use chain_weaver.Executor.Safety.{IsAllowed, Permits-IsAllowed}
use chain_weaver.Executor.Invoke.Calls.{AllAt}
use chain_weaver.Executor.Invoke.Retry.{IsRetrying}
use chain_weaver.Executor.Step.Permits.{Permits}
use chain_weaver.Executor.Step.Frame.{fire}
use chain_weaver.Executor.Step.Body.Whole.{execute_step-Effect}
use chain_weaver.Executor.Result.{Job, Cancel, scoped, check_cancellation}
use chain_weaver.Executor.Result.Keeps.{calls-give_up, calls-finish_flow, calls-check_cancellation}
use chain_weaver.Executor.Linear.Calls.{unless_cancelled-All}
use chain_weaver.Dag.Levels.{Sorter}
use chain_weaver.Dag.Topology.{DagStep}
use chain_weaver.Dag.Branch.{Selected, target, no_branch, bad_predicate, unevaluated, Evaluator}
use chain_weaver.Dag.Run.{
  DagFlow, proxy, LevelState, DagState, Progress, going, over, Added, added, conflict, over_with,
  after_branch, after_added, after_projection, after_dag_outputs, after_dag_step, dag_step,
  propagate, run_level, DagRest, save_dag_snapshot, after_level_merge, after_level, level_start,
  take_level, run_levels, with_levels, dag_job, after_dag_schema, execute_dag_flow,
}

module _ (Q : Call → History → Type 0) where
  abbrev ProgressAll : Progress → Type 0
  ProgressAll (going st r) = AllAt Q r.calls
  ProgressAll (over out) = AllAt Q out.1.calls

  module _ (evaluate : Evaluator) (job : Job) (steps : List DagStep) (context : Context)
      (log : List StepRecord) where
    module _ (s : DagStep) (st : LevelState) where
      over_with-All :
          (records : List StepRecord) (r : Run)
          → AllAt Q r.calls
          → ProgressAll (over_with evaluate job steps context log s st records r)
      unfolding over_with
      over_with-All records r all = rw (calls-give_up job (log ++ records) r) all

      after_branch-All :
          (outputs : Context) (rec : StepRecord) (r : Run) (selected : Selected)
          → AllAt Q r.calls
          → ProgressAll (after_branch evaluate job steps context log s st outputs rec r selected)
      unfolding after_branch
      after_branch-All outputs rec r no_branch all = all
      after_branch-All outputs rec r (target selected) all = all
      after_branch-All outputs rec r (unevaluated e) all = all
      after_branch-All outputs rec r (bad_predicate e) all = over_with-All _ r all

      after_added-All :
          (mapped : Context) (rec : StepRecord) (r : Run) (a : Added)
          → AllAt Q r.calls
          → ProgressAll (after_added evaluate job steps context log s st mapped rec r a)
      unfolding after_added
      after_added-All mapped rec r (conflict k) all = over_with-All _ r all
      after_added-All mapped rec r (added outputs) all = after_branch-All outputs rec r _ all

      after_projection-All :
          (rec : StepRecord) (r : Run) (mapped : Result Context)
          → AllAt Q r.calls
          → ProgressAll (after_projection evaluate job steps context log s st rec r mapped)
      unfolding after_projection
      after_projection-All rec r (raise e) all = all
      after_projection-All rec r (ok mapped) all = after_added-All mapped rec r _ all

      after_dag_outputs-All :
          (rec : StepRecord) (r : Run) (outputs : Option Context)
          → AllAt Q r.calls
          → ProgressAll (after_dag_outputs evaluate job steps context log s st rec r outputs)
      unfolding after_dag_outputs
      after_dag_outputs-All rec r none all = all
      after_dag_outputs-All rec r (some outputs) all = after_projection-All rec r _ all

      after_dag_step-All :
          (result : Result StepRecord × Run)
          → AllAt Q result.1.calls
          → ProgressAll (after_dag_step evaluate job steps context log s st result)
      unfolding after_dag_step
      after_dag_step-All (raise e, r) all = all
      after_dag_step-All (ok rec, r) all = elim (Bool-cases rec.success) [
        | inl good ↦ simp good (after_dag_outputs-All rec r rec.outputs all)
        | inr bad ↦ simp bad (over_with-All (st.records ++ rec ∷ []) r all)
      ]

    module _ (law : IsRetrying job.ex.retrying) (permits : Permits job.ex Q) where
      dag_step-All :
          (s : DagStep) (st : LevelState) (r : Run)
          → AllAt Q r.calls
          → ProgressAll (dag_step evaluate job steps context log s st r)
      unfolding dag_step
      dag_step-All s st r all = elim (Bool-cases (contains s.step_id st.skipped)) [
        | inl skip ↦ simp skip all
        | inr run ↦ simp run (
            after_dag_step-All s st _
              (execute_step-Effect Q job.ex law permits job.flow.name st.flat_index (proxy s)
                context r all).1)
      ]

      run_level-All :
          (level : List DagStep) (p : Progress)
          → ProgressAll p
          → ProgressAll (run_level evaluate job steps context log level p)
      unfolding run_level
      run_level-All [] p all = all
      run_level-All (s ∷ level) (over out) all = all
      run_level-All (s ∷ level) (going st r) all =
          run_level-All level _
            (dag_step-All s (propagate evaluate job steps context log s st) r all)

  module _ (job : Job) where
    abbrev RestAll : DagRest → Type 0
    RestAll rest = (st : DagState) (r : Run) → AllAt Q r.calls → AllAt Q (rest st r).1.calls

    calls-save_dag_snapshot :
        (context : Context) (log : List StepRecord) (n : ℕ) (r : Run)
        → (save_dag_snapshot job context log n r).calls ≡ r.calls
    unfolding save_dag_snapshot
    calls-save_dag_snapshot context log n r = ground arith

    after_level_merge-All :
        (i : ℕ) (rest : DagRest) (log : List StepRecord) (lv : LevelState) (r : Run)
        (context : Result Context)
        → RestAll rest
        → AllAt Q r.calls
        → AllAt Q (after_level_merge job i rest log lv r context).1.calls
    unfolding after_level_merge
    after_level_merge-All i rest log lv r (raise e) keeps all = all
    after_level_merge-All i rest log lv r (ok context) keeps all =
        keeps _ _ (rw (calls-save_dag_snapshot context log (suc i) r) all)

    after_level-All :
        (i : ℕ) (rest : DagRest) (st : DagState) (p : Progress)
        → RestAll rest
        → ProgressAll p
        → AllAt Q (after_level job i rest st p).1.calls
    unfolding after_level
    after_level-All i rest st (over out) keeps all = all
    after_level-All i rest st (going lv r) keeps all =
        after_level_merge-All i rest _ lv r _ keeps all

  module _ (evaluate : Evaluator) (job : Job) (steps : List DagStep) (cancel : Cancel)
      (law : IsRetrying job.ex.retrying) (permits : Permits job.ex Q) where
    take_level-All :
        (i : ℕ) (rest : DagRest) (level : List DagStep)
        → RestAll job rest
        → RestAll job (take_level evaluate job steps cancel i rest level)
    unfolding take_level
    take_level-All i rest level keeps st r all = after_level-All job i rest st _ keeps (
        run_level-All evaluate job steps st.context st.log law permits level
          (going (level_start st) r) all)

    run_levels-All :
        (i : ℕ) (levels : List (List DagStep))
        → RestAll job (run_levels evaluate job steps cancel i levels)
    unfolding run_levels
    run_levels-All i [] st r all = rw (calls-finish_flow job st.context st.log r) all
    run_levels-All i (level ∷ levels) st r all =
        unless_cancelled-All Q job cancel (check_cancellation job cancel st.flat_index st.log r) _
          (λ stopped e.
            rw (calls-check_cancellation job cancel st.flat_index st.log r stopped e) all)
          (take_level-All i _ level (run_levels-All (suc i) levels) st r all)

    with_levels-All :
        (start : ℕ) (st : DagState) (r : Run) (levels : Result (List (List DagStep)))
        → AllAt Q r.calls
        → AllAt Q (with_levels evaluate job steps cancel start st r levels).1.calls
    unfolding with_levels
    with_levels-All start st r (raise e) all = all
    with_levels-All start st r (ok levels) all = run_levels-All start (drop start levels) st r all

module _ (Q : Call → History → Type 0) (evaluate : Evaluator) (static_order : Sorter)
    (ex : Executor) (dag : DagFlow) (law : IsRetrying ex.retrying) (permits : Permits ex Q) where
  after_dag_schema-All :
      (trace_id : String) (input : Context) (cancel : Cancel) (rec : Result (Option StepRecord))
      (r : Run)
      → AllAt Q r.calls
      → AllAt Q
          (after_dag_schema evaluate static_order ex dag
            (dag_job ex dag trace_id input)
            cancel
            rec
            r).1.calls
  unfolding after_dag_schema
  after_dag_schema-All trace_id input cancel (raise e) r all = all
  after_dag_schema-All trace_id input cancel (ok (some rec)) r all =
      rw (calls-give_up (dag_job ex dag trace_id input) (rec ∷ []) r) all
  after_dag_schema-All trace_id input cancel (ok none) r all =
      with_levels-All Q evaluate (dag_job ex dag trace_id input) dag.steps cancel law permits 0 _ r
        _ all

-- A DAG run, however it ends and whether it is cancelled, whatever order the sorter gives and
-- whatever its predicates come to, makes only allowed calls: if every call made before it was
-- allowed by its executor, then so is every call made when it ends. The retry library is assumed to
-- keep its documented contract.
pub execute_dag_flow-IsAllowed :
    (evaluate : Evaluator) (static_order : Sorter) (ex : Executor) (dag : DagFlow)
    (trace_id : String) (input : Context) (cancel : Cancel) (r : Run)
    → IsRetrying ex.retrying
    → AllAt (IsAllowed ex) r.calls
    → AllAt
        (IsAllowed ex)
        (execute_dag_flow evaluate static_order ex dag trace_id input cancel r).1.calls
unfolding execute_dag_flow
execute_dag_flow-IsAllowed evaluate static_order ex dag trace_id input cancel r law all =
    after_dag_schema-All (IsAllowed ex) evaluate static_order ex dag law (Permits-IsAllowed ex)
      trace_id input cancel _ (fire (flow_start dag.name (length dag.steps)) (scoped r)) all
