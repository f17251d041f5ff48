-- ===== src/Dag/Run/Log.antt =====
-- The execution log that a DAG run leaves: the loop over one level.
pub mod Whole
use chain_weaver.Common.{
  ℕ, suc, ◌+◌, ◌≤◌, String, Bool, true, false, Option, none, some, List, [], ◌∷◌, ◌++◌, ◌≡◌, refl,
  sym, inl, inr, arith, Bool-cases, ◌&&◌, ◌||◌, not, All, length, length-append, append_assoc,
  contains, drop, if◌then◌else◌,
}
use chain_weaver.Value.{Context}
use chain_weaver.Tools.{Exc}
use chain_weaver.Executor.Types.{
  Error, unwrapped, dag_definition_error, Result, ok, raise, StepRecord, ExecutionResult,
  FlowOutcome, completed, cancelled, aborted, Run, Executor, Event, flow_start,
}
use chain_weaver.Executor.Merge.Laws.{
  IsMergeError, RaisesOnly, apply_output_mapping-RaisesOnly, merge_step_outputs-RaisesOnly,
}
use chain_weaver.Executor.Invoke.Calls.{AllAt}
use chain_weaver.Executor.Invoke.Retry.{IsRetrying}
use chain_weaver.Executor.Step.Frame.{fire}
use chain_weaver.Executor.Step.Frame.Dry.{HasOutcome, fails, succeeds}
use chain_weaver.Executor.Step.Body.{execute_step}
use chain_weaver.Executor.Step.Body.Whole.{ResultEffect}
use chain_weaver.Executor.Result.{
  Job, Cancel, scoped, deadline_exceeded, token_cancelled, make_result, give_up, check_cancellation,
  validate_flow_schema, flow_output_step_index, after_context_schema, after_output_schema,
  finish_flow,
}
use chain_weaver.Executor.Linear.{unless_cancelled}
use chain_weaver.Executor.Linear.Log.{Succeeded, Fine, Fine-append, Failure, validate-Failure}
use chain_weaver.Executor.Linear.Next.{
  IsAbort, step_error, bad_merge, Anything, execute_step-Anything,
}
use chain_weaver.Dag.Levels.{Sorter}
use chain_weaver.Dag.Topology.{DagStep}
use chain_weaver.Dag.Branch.{Selected, target, no_branch, bad_predicate, unevaluated, Evaluator}
use chain_weaver.Dag.Group.{compute_dag_levels}
use chain_weaver.Dag.Run.{
  DagFlow, proxy, LevelState, DagState, Progress, going, over, Added, added, conflict, over_with,
  after_branch, after_added, after_projection, after_dag_outputs, after_dag_step, skip_step,
  skipped_record, failed_record, dag_step, propagate, run_level, DagRest, save_dag_snapshot,
  after_level_merge, after_level, level_start, take_level, run_levels, with_levels, dag_job,
  fresh_state, after_dag_schema, execute_dag_flow,
}

-- Why a DAG run may raise an exception: what ends a linear run, a flow that is not valid, or what the
-- evaluation of a predicate raises that is not a PredicateSyntaxError.
pub data IsDagAbort (e : Error) : Type 0 where
  aborts : IsAbort e → IsDagAbort e
  not_valid : (name : String) → e ≡ dag_definition_error name → IsDagAbort e
  not_evaluated : (x : Exc) → e ≡ unwrapped x → IsDagAbort e

-- What the outcome of a DAG run of `total` steps says of its log. A result of success has one record
-- of success for each step, and an output; any other result has no output, and its log is records of
-- success, at most one for each step, and one failure at the end. A cancelled run has one record of
-- success for each of the `n` steps that it says are done. An exception has one of the reasons of
-- IsDagAbort.
pub data DagLogPost (total : ℕ) : FlowOutcome → Type 0 where
  all_done :
      (result : ExecutionResult) (final : Context)
      → result.success ≡ true
      → result.final_output ≡ some final
      → length result.execution_log ≡ total
      → Fine result.execution_log
      → DagLogPost total (completed result)
  one_failed :
      (result : ExecutionResult) (good : List StepRecord) (bad : StepRecord)
      → result.success ≡ false
      → result.final_output ≡ none
      → result.execution_log ≡ good ++ bad ∷ []
      → length good ≤ total
      → Fine good
      → bad.success ≡ false
      → DagLogPost total (completed result)
  stopped_at :
      (n : ℕ) (deadline token : Bool) (partial : ExecutionResult)
      → (deadline || token) ≡ true
      → n ≤ total
      → length partial.execution_log ≡ n
      → Fine partial.execution_log
      → partial.success ≡ false
      → DagLogPost total (cancelled n deadline token partial)
  raised_by : (e : Error) → IsDagAbort e → DagLogPost total (aborted e)

-- How a level may end the run: with a failure, or with an exception.
pub data Stops (total : ℕ) : FlowOutcome → Type 0 where
  stops_failed :
      (result : ExecutionResult) (good : List StepRecord) (bad : StepRecord)
      → result.success ≡ false
      → result.final_output ≡ none
      → result.execution_log ≡ good ++ bad ∷ []
      → length good ≤ total
      → Fine good
      → bad.success ≡ false
      → Stops total (completed result)
  stops_raised : (e : Error) → IsDagAbort e → Stops total (aborted e)

pub Stops-DagLogPost : (total : ℕ) (out : FlowOutcome) → Stops total out → DagLogPost total out
Stops-DagLogPost total _ (stops_failed result good bad failed no_output split le fine last) =
    one_failed result good bad failed no_output split le fine last
Stops-DagLogPost total _ (stops_raised e why) = raised_by e why

-- How many steps the levels have.
abbrev pub size {ℓ} : {A : Type ℓ} → List (List A) → ℕ
size [] = 0
size (level ∷ levels) = length level + size levels

pub Fine-join : (xs ys : List StepRecord) → Fine xs → Fine ys → Fine (xs ++ ys)
Fine-join [] ys fine fine' = fine'
Fine-join (x ∷ xs) ys (this, fine) fine' = (this, Fine-join xs ys fine fine')

-- The loop over a level has one record of success for each step so far.
pub record InLevel (log : List StepRecord) (st : LevelState) : Type 0 where
  pub fine : Fine st.records
  pub count : st.flat_index ≡ length log + length st.records

module _ (total : ℕ) (evaluate : Evaluator) (job : Job) (steps : List DagStep) (context : Context)
    (log : List StepRecord) (logged : Fine log) where
  -- `more` steps are left after the loop has come this far.
  abbrev pub ProgressPost : ℕ → Progress → Type 0
  ProgressPost more (going st r) = InLevel log st × (st.flat_index + more ≡ total)
  ProgressPost more (over out) = Stops total out.0

  module _ (more : ℕ) (s : DagStep) (st : LevelState) (inside : InLevel log st)
      (left : st.flat_index + suc more ≡ total) where
    over_with-Post :
        (bad : StepRecord) (r : Run)
        → bad.success ≡ false
        → ProgressPost more
            (over_with evaluate job steps context log s st (st.records ++ bad ∷ []) r)
    unfolding over_with give_up make_result
    over_with-Post bad r failed =
        stops_failed _ (log ++ st.records) bad refl refl (append_assoc log st.records (bad ∷ []))
          (omega (arith, length-append log st.records, inside.count, left))
          (Fine-join log st.records logged inside.fine) failed

    step_on : (rec : StepRecord) → Succeeded rec → Fine (st.records ++ rec ∷ [])
    step_on rec good = Fine-append st.records rec inside.fine good

    one_more : (rec : StepRecord) → suc st.flat_index ≡ length log + length (st.records ++ rec ∷ [])
    one_more rec = omega (arith, length-append st.records (rec ∷ []), inside.count)

    after_branch-Post :
        (outputs : Context) (rec : StepRecord) (r : Run) (selected : Selected)
        → Succeeded rec
        → ProgressPost more
            (after_branch evaluate job steps context log s st outputs rec r selected)
    unfolding after_branch failed_record
    after_branch-Post outputs rec r no_branch good =
        (record { fine = step_on rec good; count = one_more rec }, omega (arith, left))
    after_branch-Post outputs rec r (target selected) good =
        (record { fine = step_on rec good; count = one_more rec }, omega (arith, left))
    after_branch-Post outputs rec r (unevaluated e) good = stops_raised _ (not_evaluated e refl)
    after_branch-Post outputs rec r (bad_predicate e) good = over_with-Post _ r refl

    after_added-Post :
        (mapped : Context) (rec : StepRecord) (r : Run) (a : Added)
        → Succeeded rec
        → ProgressPost more (after_added evaluate job steps context log s st mapped rec r a)
    unfolding after_added failed_record
    after_added-Post mapped rec r (conflict k) good = over_with-Post _ r refl
    after_added-Post mapped rec r (added outputs) good = after_branch-Post outputs rec r _ good

    after_projection-Post :
        (rec : StepRecord) (r : Run) (mapped : Result Context)
        → Succeeded rec
        → RaisesOnly mapped
        → ProgressPost more (after_projection evaluate job steps context log s st rec r mapped)
    unfolding after_projection
    after_projection-Post rec r (raise e) good why = stops_raised e (aborts (bad_merge why))
    after_projection-Post rec r (ok mapped) good why = after_added-Post mapped rec r _ good

    after_dag_outputs-Post :
        (rec : StepRecord) (r : Run) (outputs : Option Context)
        → Succeeded rec
        → HasOutcome rec
        → rec.outputs ≡ outputs
        → ProgressPost more (after_dag_outputs evaluate job steps context log s st rec r outputs)
    unfolding after_dag_outputs
    after_dag_outputs-Post rec r none good (fails x bad err out) e = ground arith
    after_dag_outputs-Post rec r none good (succeeds outputs fine out) e = ground arith
    after_dag_outputs-Post rec r (some outputs) good proper e = after_projection-Post rec r _ good (
        apply_output_mapping-RaisesOnly s.work.tool_name st.flat_index outputs
          s.work.output_mapping)

    after_dag_step-Post :
        (r : Run) (result : Result StepRecord × Run)
        → ResultEffect Anything st.flat_index r result
        → ProgressPost more (after_dag_step evaluate job steps context log s st result)
    unfolding after_dag_step
    after_dag_step-Post r (raise e, r') abort = stops_raised e (aborts (step_error e abort.why))
    after_dag_step-Post r (ok rec, r') effect = elim (Bool-cases rec.success) [
      | inl good ↦ simp good (after_dag_outputs-Post rec r' rec.outputs good effect.outcome refl)
      | inr bad ↦ simp bad (over_with-Post rec r' bad)
    ]

  module _ (law : IsRetrying job.ex.retrying) where
    dag_step-Post :
        (more : ℕ) (s : DagStep) (st : LevelState) (r : Run)
        → ProgressPost (suc more) (going st r)
        → ProgressPost more (dag_step evaluate job steps context log s st r)
    unfolding dag_step skipped_record
    dag_step-Post more s st r (inside, left) = elim (Bool-cases (contains s.step_id st.skipped)) [
      | inl skip ↦ simp skip (
        record {
          fine = step_on more s st inside left _ refl;
          count = one_more more s st inside left _;
        },
        omega (arith, left),
      )
      | inr run ↦ simp run (
          after_dag_step-Post more s st inside left r _
            (execute_step-Anything job st.flat_index (proxy s) context r law))
    ]

    pub run_level-Post :
        (more : ℕ) (level : List DagStep) (p : Progress)
        → ProgressPost (length level + more) p
        → ProgressPost more (run_level evaluate job steps context log level p)
    unfolding run_level
    run_level-Post more [] (over out) post = post
    run_level-Post more [] (going st r) (inside, left) = (inside, omega (arith, left))
    run_level-Post more (s ∷ level) (over out) post = post
    run_level-Post more (s ∷ level) (going st r) (inside, left) = run_level-Post more level _ (
        dag_step-Post (length level + more) s (propagate evaluate job steps context log s st) r
          (record { fine = inside.fine; count = inside.count }, omega (arith, left)))
