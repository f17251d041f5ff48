-- ===== src/Executor/Resume/Recovery.antt =====
-- Cancelling a linear run and resuming it, against not cancelling it.
use chain_weaver.Common.{
  ℕ, zero, suc, String, true, false, Option, none, some, List, [], ◌∷◌, ◌≡◌, refl, ◌≢◌, sym, ap,
  ◌∙◌, ◌⊎◌, arith, drop, length,
}
use chain_weaver.Dict.{lookup}
use chain_weaver.Dict.Laws.{lookup-insert}
use chain_weaver.Common.{eq_refl}
use chain_weaver.Value.{Context}
use chain_weaver.Executor.Types.{
  StepRecord, Flow, collision_error, ExecutionResult, FlowOutcome, completed, cancelled, aborted,
  flow_start, flow_end, Run,
}
use chain_weaver.Executor.Step.Frame.{fire}
use chain_weaver.Executor.Result.{
  Job, never, make_result, result_of, snapshot_of, save_linear_snapshot,
}
use chain_weaver.Executor.Linear.{run_steps}
use chain_weaver.Executor.Resume.{resume_linear_flow, resume_loaded, resume_flow}
use chain_weaver.Executor.Resume.Sound.{resume_steps-run_steps}
use chain_weaver.Executor.Resume.Drift.{load_snapshot-snapshot_of}

pub drop_next {ℓ} :
    {A : Type ℓ} (i : ℕ) (all : List A) (x : A) (xs : List A)
    → drop i all ≡ x ∷ xs
    → drop (suc i) all ≡ xs
drop_next zero [] x xs e = ground arith
drop_next zero (y ∷ all) x xs e = ground arith
drop_next (suc i) [] x xs e = ground arith
drop_next (suc i) (y ∷ all) x xs e = drop_next i all x xs e

module _ (job : Job) (get_flow : String → Option Flow) (outer : ℕ) where
  -- The state in which a resumed run begins its loop.
  abbrev pub restarted : Run → Run
  restarted r =
      fire (flow_start job.flow.name (length job.flow.steps)) (record r { decision_count = outer })

  -- A run that ended in the state `r'`, cancelled before the step `n`: the uninterrupted run, which
  -- comes to `whole`, passes the same boundary with some context, log and state; the cancelled run
  -- left that state, with the event of its end; and resuming does from there what the
  -- uninterrupted run does, after the event of a new start and with the decisions counted on from
  -- `outer`.
  pub record Recovery (whole : FlowOutcome × Run) (n : ℕ) (partial : ExecutionResult) (r' : Run)
      : Type 0 where
    pub context : Context
    pub log : List StepRecord
    pub state : Run
    pub passes : whole ≡ run_steps job never n (drop n job.flow.steps) context log state
    pub left : r' ≡ fire (flow_end partial) state
    pub resumes :
        resume_flow job.ex get_flow job.trace_id outer r'
        ≡ run_steps job never n (drop n job.flow.steps) context log (restarted r')

  -- A cancelled run can be recovered, if it took a step.
  abbrev pub Resumable : (whole : FlowOutcome × Run) → FlowOutcome × Run → Type 0
  Resumable whole (completed result, r') = Unit
  Resumable whole (aborted e, r') = Unit
  Resumable whole (cancelled n deadline token partial, r') = (n ≡ 0) ⊎ Recovery whole n partial r'

  -- At the boundary before the step `n` the checkpoint of the run is there, but for the first.
  abbrev pub Boundary : ℕ → Context → List StepRecord → Run → Type 0
  Boundary n context log r =
      (n ≡ 0) ⊎ (lookup job.trace_id r.snapshots ≡ some (snapshot_of job context log n 0))

  pub save-Boundary :
      (context : Context) (log : List StepRecord) (n : ℕ) (r : Run)
      → job.ex.checkpointer ≡ true
      → job.ex.dry_run ≡ false
      → lookup job.trace_id (save_linear_snapshot job context log n r).snapshots
        ≡ some (snapshot_of job context log n 0)
  unfolding save_linear_snapshot
  save-Boundary context log n r on live =
      simp
        (
          on,
          live,
          lookup-insert job.trace_id job.trace_id (snapshot_of job context log n 0) r.snapshots,
          eq_refl job.trace_id,
        )
        refl

  pub left_state :
      (log : List StepRecord) (r : Run)
      → (make_result job false none log r).1 ≡ fire (flow_end (result_of job false none log)) r
  unfolding make_result
  left_state log r = ground arith

  pub resume-run_steps :
      (n : ℕ) (context : Context) (log : List StepRecord) (r : Run)
      → job.ex.checkpointer ≡ true
      → get_flow job.flow.name ≡ some job.flow
      → job.flow.on_context_collision ≢ collision_error
      → lookup job.trace_id r.snapshots ≡ some (snapshot_of job context log n 0)
      → resume_flow job.ex get_flow job.trace_id outer r
        ≡ run_steps job never n (drop n job.flow.steps) context log (restarted r)
  unfolding resume_flow resume_loaded resume_linear_flow snapshot_of
  resume-run_steps n context log r on has lax saved =
      ap (λ loaded. resume_loaded job.ex loaded (record r { decision_count = outer }))
        (load_snapshot-snapshot_of job get_flow context log n 0 r on has saved)
      ∙ ap (λ rest. rest context log (restarted r))
          (sym (resume_steps-run_steps job n (drop n job.flow.steps) lax))
