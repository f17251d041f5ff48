-- ===== src/Dag/Run/Recovery.antt =====
-- Cancelling a DAG run and resuming it, against not cancelling it.
pub mod Levels
use chain_weaver.Common.{
  ℕ, suc, String, Bool, true, false, Option, none, some, List, [], ◌∷◌, ◌++◌, ◌≡◌, refl, sym, ap,
  subst, ◌∙◌, ◌⊎◌, inl, inr, arith, Bool-cases, ◌||◌, drop, length, eq_refl,
}
use chain_weaver.Dict.{lookup, update}
use chain_weaver.Dict.Laws.{lookup-insert}
use chain_weaver.Value.{Context}
use chain_weaver.Executor.Types.{
  Result, ok, raise, StepRecord, Flow, ExecutionResult, FlowOutcome, completed, cancelled, aborted,
  Event, flow_start, flow_end, Run, Executor,
}
use chain_weaver.Executor.Merge.Laws.{RaisesOnly}
use chain_weaver.Executor.Invoke.Retry.{IsRetrying}
use chain_weaver.Executor.Step.Frame.{fire}
use chain_weaver.Executor.Result.{
  Job, Cancel, never, scoped, deadline_exceeded, token_cancelled, make_result, give_up, result_of,
  snapshot_of, check_cancellation, after_context_schema, after_output_schema, finish_flow,
}
use chain_weaver.Executor.Linear.{unless_cancelled}
use chain_weaver.Executor.Linear.Log.{Fine}
use chain_weaver.Executor.Resume.Recovery.{drop_next}
use chain_weaver.Executor.Resume.Drift.{load_snapshot-snapshot_of}
use chain_weaver.Dag.Levels.{Sorter}
use chain_weaver.Dag.Topology.{DagStep}
use chain_weaver.Dag.Branch.{Evaluator}
use chain_weaver.Dag.Group.{compute_dag_levels}
use chain_weaver.Dag.Run.{
  DagFlow, flow_of, LevelState, DagState, Progress, going, over, run_level, DagRest,
  save_dag_snapshot, after_level_merge, after_level, level_start, take_level, run_levels,
  with_levels, dag_job, fresh_state, after_dag_schema, execute_dag_flow, resume_dag_flow,
  resume_dag_loaded, resume_dag,
}
use chain_weaver.Dag.Run.Log.{
  Stops, stops_failed, stops_raised, size, Fine-join, InLevel, ProgressPost, run_level-Post,
}
use chain_weaver.Dag.Run.Log.Whole.{AtLevel}

-- The same state, with the branches that were taken forgotten.
abbrev pub forgetful : DagState → DagState
forgetful st = record st { skipped = [] }

module _ (evaluate : Evaluator) (static_order : Sorter) (ex : Executor) (dag : DagFlow)
    (trace_id : String) (input : Context) (get_flow : String → Option Flow) (outer : ℕ)
    (levels : List (List DagStep)) where
  abbrev pub this_job : Job
  this_job = dag_job ex dag trace_id input

  -- The uninterrupted run, from a level on.
  abbrev pub uninterrupted : ℕ → DagRest
  uninterrupted i = run_levels evaluate this_job dag.steps never i (drop i levels)

  -- The state in which a resumed run begins its loop.
  abbrev pub dag_restarted : Run → Run
  dag_restarted r =
      fire (flow_start dag.name (length dag.steps)) (record r { decision_count = outer })

  -- A run that ended in the state `r'`, cancelled after `n` steps: the uninterrupted run, which comes
  -- to `whole`, passes the same boundary between two levels; the cancelled run left the state that
  -- it had there, with the event of its end; and resuming does from there what the uninterrupted run
  -- does from the same point with no step skipped, after the event of a new start and with the
  -- decisions counted on from `outer`.
  pub record DagRecovery (whole : FlowOutcome × Run) (n : ℕ) (partial : ExecutionResult) (r' : Run)
      : Type 0 where
    pub level : ℕ
    pub at : DagState
    pub state : Run
    pub done : n ≡ at.flat_index
    pub passes : whole ≡ uninterrupted level at state
    pub left : r' ≡ fire (flow_end partial) state
    pub resumes :
        resume_dag evaluate static_order ex dag get_flow trace_id outer r'
        ≡ uninterrupted level (forgetful at) (dag_restarted r')

  abbrev pub DagResumable : (whole : FlowOutcome × Run) → FlowOutcome × Run → Type 0
  DagResumable whole (completed result, r') = Unit
  DagResumable whole (aborted e, r') = Unit
  DagResumable whole (cancelled n deadline token partial, r') =
      (n ≡ 0) ⊎ DagRecovery whole n partial r'

  -- At a boundary between levels the checkpoint is there, but for the first.
  abbrev pub Saved : ℕ → DagState → Run → Type 0
  Saved i st r =
      (st.flat_index ≡ 0)
      ⊎ (lookup trace_id r.snapshots ≡ some (snapshot_of this_job st.context st.log 0 i))

  pub save_dag_snapshot-Saved :
      (context : Context) (log : List StepRecord) (i : ℕ) (r : Run)
      → ex.checkpointer ≡ true
      → ex.dry_run ≡ false
      → lookup trace_id (save_dag_snapshot this_job context log i r).snapshots
        ≡ some (snapshot_of this_job context log 0 i)
  unfolding save_dag_snapshot
  save_dag_snapshot-Saved context log i r on live =
      simp
        (
          on,
          live,
          lookup-insert trace_id trace_id (snapshot_of this_job context log 0 i) r.snapshots,
          eq_refl trace_id,
        )
        refl

  pub Stops-DagResumable :
      (whole : FlowOutcome × Run) (total : ℕ) (out : FlowOutcome) (r : Run)
      → Stops total out
      → DagResumable whole (out, r)
  Stops-DagResumable whole total _ r
        (stops_failed result good bad failed nothing split le fine last) =
      tt
  Stops-DagResumable whole total _ r (stops_raised e why) = tt

  after_context_schema-DagResumable :
      (whole : FlowOutcome × Run) (rec : Result (Option StepRecord)) (context : Context)
      (log : List StepRecord) (r : Run)
      → DagResumable whole (after_context_schema this_job rec context log r)
  unfolding after_context_schema make_result give_up
  after_context_schema-DagResumable whole (raise e) context log r = tt
  after_context_schema-DagResumable whole (ok (some rec)) context log r = tt
  after_context_schema-DagResumable whole (ok none) context log r = tt

  pub after_output_schema-DagResumable :
      (whole : FlowOutcome × Run) (rec : Result (Option StepRecord)) (context : Context)
      (log : List StepRecord) (r : Run)
      → DagResumable whole (after_output_schema this_job rec context log r)
  unfolding after_output_schema give_up make_result
  after_output_schema-DagResumable whole (raise e) context log r = tt
  after_output_schema-DagResumable whole (ok (some rec)) context log r = tt
  after_output_schema-DagResumable whole (ok none) context log r =
      after_context_schema-DagResumable whole _ context log r

  module _ (found : compute_dag_levels static_order dag.name dag.steps ≡ ok levels)
      (on : ex.checkpointer ≡ true) (live : ex.dry_run ≡ false)
      (has : get_flow dag.name ≡ some (flow_of dag)) where
    pub resume_dag-uninterrupted :
        (i : ℕ) (st : DagState) (r : Run)
        → st.flat_index ≡ length st.log
        → lookup trace_id r.snapshots ≡ some (snapshot_of this_job st.context st.log 0 i)
        → resume_dag evaluate static_order ex dag get_flow trace_id outer r
          ≡ uninterrupted i (forgetful st) (dag_restarted r)
    unfolding resume_dag resume_dag_loaded resume_dag_flow with_levels snapshot_of
    resume_dag-uninterrupted i st r count saved =
        ap
          (λ loaded.
            resume_dag_loaded evaluate static_order ex dag loaded
              (record r { decision_count = outer }))
          (load_snapshot-snapshot_of this_job get_flow st.context st.log 0 i r on has saved)
        ∙ ap
            (λ ls.
              with_levels evaluate this_job dag.steps never i
                (record {
                  context = st.context;
                  log = st.log;
                  skipped = [];
                  flat_index = length st.log;
                })
                (dag_restarted r) ls)
            found
        ∙ ap
            (λ n.
              uninterrupted i
                (record { context = st.context; log = st.log; skipped = []; flat_index = n })
                (dag_restarted r))
            (sym count)
