-- ===== src/Dag/Run/Recovery/Levels.antt =====
-- Cancelling a DAG run and resuming it: the induction over the levels.
use chain_weaver.Common.{
  ℕ, suc, String, Bool, true, false, Option, none, some, List, [], ◌∷◌, ◌++◌, ◌≡◌, refl, sym, ap,
  subst, ◌∙◌, inl, inr, arith, Bool-cases, ◌||◌, drop, length, length-append, ◌+◌,
}
use chain_weaver.Dict.{lookup, update}
use chain_weaver.Value.{Context}
use chain_weaver.Executor.Types.{
  Result, ok, raise, StepRecord, Flow, FlowOutcome, cancelled, flow_start, flow_end, Run, Executor,
}
use chain_weaver.Executor.Invoke.Retry.{IsRetrying}
use chain_weaver.Executor.Step.Frame.{fire}
use chain_weaver.Executor.Result.{
  Job, Cancel, never, scoped, deadline_exceeded, token_cancelled, make_result, give_up, result_of,
  check_cancellation, finish_flow,
}
use chain_weaver.Executor.Linear.{unless_cancelled}
use chain_weaver.Executor.Linear.Log.{Fine}
use chain_weaver.Executor.Resume.Recovery.{drop_next}
use chain_weaver.Dag.Levels.{Sorter}
use chain_weaver.Dag.Topology.{DagStep}
use chain_weaver.Dag.Branch.{Evaluator}
use chain_weaver.Dag.Group.{compute_dag_levels}
use chain_weaver.Dag.Run.{
  DagFlow, flow_of, LevelState, DagState, Progress, going, over, DagRest, after_level_merge,
  after_level, level_start, take_level, run_levels, with_levels, dag_job, fresh_state,
  after_dag_schema, execute_dag_flow,
}
use chain_weaver.Dag.Run.Log.{size, Fine-join, ProgressPost, run_level-Post}
use chain_weaver.Dag.Run.Log.Whole.{AtLevel}
use chain_weaver.Dag.Run.Recovery.{
  this_job, uninterrupted, DagResumable, Saved, save_dag_snapshot-Saved, Stops-DagResumable,
  after_output_schema-DagResumable, resume_dag-uninterrupted,
}

module _ (evaluate : Evaluator) (static_order : Sorter) (ex : Executor) (dag : DagFlow)
    (trace_id : String) (input : Context) (get_flow : String → Option Flow) (outer : ℕ)
    (levels : List (List DagStep)) (total : ℕ) where
  abbrev Resumable : FlowOutcome × Run → FlowOutcome × Run → Type 0
  Resumable = DagResumable evaluate static_order ex dag trace_id input get_flow outer levels

  abbrev job : Job
  job = this_job evaluate static_order ex dag trace_id input get_flow outer levels

  abbrev IsSaved : ℕ → DagState → Run → Type 0
  IsSaved = Saved evaluate static_order ex dag trace_id input get_flow outer levels

  abbrev whole_from : ℕ → DagRest
  whole_from = uninterrupted evaluate static_order ex dag trace_id input get_flow outer levels

  module _ (found : compute_dag_levels static_order dag.name dag.steps ≡ ok levels)
      (on : ex.checkpointer ≡ true) (live : ex.dry_run ≡ false)
      (has : get_flow dag.name ≡ some (flow_of dag)) (law : IsRetrying ex.retrying) where
    -- A run that is stopped between levels leaves what a resumed run needs.
    Saved-DagResumable :
        (i : ℕ) (deadline token : Bool) (st : DagState) (r : Run)
        → st.flat_index ≡ length st.log
        → IsSaved i st r
        → Resumable (whole_from i st r) (
          cancelled st.flat_index deadline token (result_of job false none st.log),
          (make_result job false none st.log r).1,
        )
    unfolding make_result
    Saved-DagResumable i deadline token st r count (inl first) = inl first
    Saved-DagResumable i deadline token st r count (inr saved) = inr (record {
      level = i;
      at = st;
      state = r;
      done = refl;
      passes = refl;
      left = left;
      resumes =
          resume_dag-uninterrupted evaluate static_order ex dag trace_id input get_flow outer levels
            found on live has i st _ count (ap (λ s. lookup trace_id s.snapshots) left ∙ saved);
    })
      where
        left :
            (make_result job false none st.log r).1
            ≡ fire (flow_end (result_of job false none st.log)) r
        left = ground arith

    unless_cancelled-DagResumable :
        (cancel : Cancel) (i : ℕ) (st : DagState) (r : Run) (go_on : FlowOutcome × Run)
        → st.flat_index ≡ length st.log
        → IsSaved i st r
        → Resumable (whole_from i st r) go_on
        → Resumable (whole_from i st r) (
            unless_cancelled job cancel
              (check_cancellation job cancel st.flat_index st.log r)
              go_on)
    unfolding unless_cancelled check_cancellation
    unless_cancelled-DagResumable cancel i st r go_on count saved after =
        elim (Bool-cases
          (deadline_exceeded cancel st.flat_index || token_cancelled cancel st.flat_index)) [
            | inl stop ↦ simp stop (
                unfold make_result in
                Saved-DagResumable i (deadline_exceeded cancel st.flat_index)
                  (token_cancelled cancel st.flat_index) st r count saved)
            | inr go ↦ simp go after
          ]

    -- What follows a level, in the uninterrupted run and in the other.
    abbrev RestsResumable : ℕ → ℕ → DagRest → DagRest → Type 0
    RestsResumable i more whole rest =
        (st : DagState) (r : Run)
        → AtLevel total job more st
        → IsSaved i st r
        → Resumable (whole st r) (rest st r)

    after_level_merge-DagResumable :
        (i more : ℕ) (whole rest : DagRest) (log : List StepRecord) (lv : LevelState) (r : Run)
        (context : Result Context)
        → RestsResumable (suc i) more whole rest
        → Fine log
        → lv.flat_index ≡ length log
        → lv.flat_index + more ≡ total
        → Resumable
            (after_level_merge job i whole log lv r context)
            (after_level_merge job i rest log lv r context)
    unfolding after_level_merge
    after_level_merge-DagResumable i more whole rest log lv r (raise e) ih fine count left = tt
    after_level_merge-DagResumable i more whole rest log lv r (ok context) ih fine count left =
        ih _ _ (record { logged = fine; count = count; left = left })
          (inr (
            save_dag_snapshot-Saved evaluate static_order ex dag trace_id input get_flow outer
              levels context log (suc i) r on live))

    after_level-DagResumable :
        (i more : ℕ) (whole rest : DagRest) (st : DagState) (p : Progress) (fine : Fine st.log)
        → RestsResumable (suc i) more whole rest
        → ProgressPost total evaluate job dag.steps st.context st.log fine more p
        → Resumable (after_level job i whole st p) (after_level job i rest st p)
    unfolding after_level
    after_level-DagResumable i more whole rest st (over out) fine ih stops =
        Stops-DagResumable evaluate static_order ex dag trace_id input get_flow outer levels out
          total out.0 out.1 stops
    after_level-DagResumable i more whole rest st (going lv r) fine ih (inside, left) =
        after_level_merge-DagResumable i more whole rest (st.log ++ lv.records) lv r _ ih
          (Fine-join st.log lv.records fine inside.fine)
          (omega (arith, length-append st.log lv.records, inside.count)) left

    take_level-DagResumable :
        (cancel : Cancel) (i more : ℕ) (whole rest : DagRest) (level : List DagStep) (st : DagState)
        (r : Run)
        → RestsResumable (suc i) more whole rest
        → AtLevel total job (length level + more) st
        → Resumable
            (take_level evaluate job dag.steps never i whole level st r)
            (take_level evaluate job dag.steps cancel i rest level st r)
    unfolding take_level
    take_level-DagResumable cancel i more whole rest level st r ih at =
        after_level-DagResumable i more whole rest st _ at.logged ih (
          run_level-Post total evaluate job dag.steps st.context st.log at.logged law more level
            (going (level_start st) r)
            (record { fine = tt; count = omega (arith, at.count) }, at.left))

    run_levels-DagResumable :
        (cancel : Cancel) (i : ℕ) (rest : List (List DagStep))
        → drop i levels ≡ rest
        → RestsResumable i
            (size rest)
            (run_levels evaluate job dag.steps never i rest)
            (run_levels evaluate job dag.steps cancel i rest)
    unfolding run_levels finish_flow unless_cancelled check_cancellation
    run_levels-DagResumable cancel i [] here st r at saved =
        after_output_schema-DagResumable evaluate static_order ex dag trace_id input get_flow outer
          levels _ _ st.context st.log r
    run_levels-DagResumable cancel i (level ∷ rest) here st r at saved =
        subst
          (λ ls. Resumable (run_levels evaluate job dag.steps never i ls st r) (
            unless_cancelled job cancel (check_cancellation job cancel st.flat_index st.log r) (
              take_level evaluate job dag.steps cancel i
                (run_levels evaluate job dag.steps cancel (suc i) rest) level st r)))
          here
          (unless_cancelled-DagResumable cancel i st r _ at.count saved (
            subst
              (λ ls. Resumable (run_levels evaluate job dag.steps never i ls st r) (
                take_level evaluate job dag.steps cancel i
                  (run_levels evaluate job dag.steps cancel (suc i) rest) level st r))
              (sym here)
              (take_level-DagResumable cancel i (size rest) _ _ level st r
                (run_levels-DagResumable cancel (suc i) rest (drop_next i levels level rest here))
                at)))

module _ (evaluate : Evaluator) (static_order : Sorter) (ex : Executor) (dag : DagFlow)
    (trace_id : String) (input : Context) (get_flow : String → Option Flow) (outer : ℕ)
    (levels : List (List DagStep)) where
  -- The state of a run that begins its loop.
  abbrev started : DagState
  started = fresh_state (update input ex.dynamic_params)

  module _ (found : compute_dag_levels static_order dag.name dag.steps ≡ ok levels)
      (on : ex.checkpointer ≡ true) (live : ex.dry_run ≡ false)
      (has : get_flow dag.name ≡ some (flow_of dag)) (law : IsRetrying ex.retrying)
      (cancel : Cancel) where
    after_dag_schema-DagResumable :
        (rec : Result (Option StepRecord)) (r : Run)
        → DagResumable evaluate static_order ex dag trace_id input get_flow outer levels
            (after_dag_schema evaluate static_order ex dag
              (dag_job ex dag trace_id input)
              never
              rec
              r)
            (after_dag_schema evaluate static_order ex dag
              (dag_job ex dag trace_id input)
              cancel
              rec
              r)
    unfolding after_dag_schema with_levels give_up make_result
    after_dag_schema-DagResumable (raise e) r = tt
    after_dag_schema-DagResumable (ok (some rec)) r = tt
    after_dag_schema-DagResumable (ok none) r =
        subst
          (λ ls.
            DagResumable evaluate static_order ex dag trace_id input get_flow outer levels
              (with_levels evaluate (dag_job ex dag trace_id input) dag.steps never 0 started r ls)
              (with_levels evaluate (dag_job ex dag trace_id input) dag.steps cancel 0 started r
                ls))
          (sym found)
          (run_levels-DagResumable evaluate static_order ex dag trace_id input get_flow outer levels
            (size levels) found on live has law cancel 0 levels refl started r
            (record { logged = tt; count = refl; left = omega arith }) (inl refl))

    -- A DAG run that is cancelled after `n` steps, with `n` not 0, and then resumed does what the
    -- uninterrupted run does from that boundary between levels on, but that no step is skipped there,
    -- whatever the branches before it selected, and that it counts its decisions on from the caller's
    -- count. The flow has levels, the executor has a checkpointer, the run is not dry, and the
    -- registry still has the flow; the retry library keeps its documented contract.
    pub execute_dag_flow-DagResumable :
        (r : Run)
        → DagResumable evaluate static_order ex dag trace_id input get_flow outer levels
            (execute_dag_flow evaluate static_order ex dag trace_id input never r)
            (execute_dag_flow evaluate static_order ex dag trace_id input cancel r)
    unfolding execute_dag_flow
    execute_dag_flow-DagResumable r =
        after_dag_schema-DagResumable _ (fire (flow_start dag.name (length dag.steps)) (scoped r))
