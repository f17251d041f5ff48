-- ===== src/Executor/Resume/Sound.antt =====
-- Resuming against running through: the two loops of chainweaver/executor.py over the steps.
use chain_weaver.Common.{
  ℕ, suc, String, Option, none, some, List, [], ◌∷◌, ◌++◌, ◌≡◌, refl, ◌≢◌, ap, ◌∙◌, arith,
  if◌then◌else◌,
}
use chain_weaver.Value.{Context}
use chain_weaver.Executor.Types.{
  Result, ok, raise, StepRecord, FlowStep, CollisionPolicy, warn, overwrite, collision_error, Run,
}
use chain_weaver.Executor.Merge.{merge_step_outputs, merge_after, merge_projected}
use chain_weaver.Executor.Step.Body.{execute_step}
use chain_weaver.Executor.Result.{Job, never, check_cancellation, give_up}
use chain_weaver.Executor.Linear.{
  Rest, after_merge, after_outputs, after_step, take_step, unless_cancelled, run_steps,
}
use chain_weaver.Executor.Resume.{after_mapping, resume_outputs, resume_after, resume_steps}

module _ (job : Job) (i : ℕ) (rest : Rest) where
  after_merge-lax :
      (policy : CollisionPolicy) (name : String) (context : Context) (log : List StepRecord)
      (r : Run) (outputs : Result Context)
      → policy ≢ collision_error
      → after_merge job i rest log r (merge_after policy name i context outputs)
        ≡ after_mapping job i rest context log r outputs
  unfolding merge_after merge_projected after_merge after_mapping
  after_merge-lax policy name context log r (raise e) lax = refl
  after_merge-lax warn name context log r (ok outputs) lax = refl
  after_merge-lax overwrite name context log r (ok outputs) lax = refl
  after_merge-lax collision_error name context log r (ok outputs) lax = ground (arith, lax refl)

  after_outputs-lax :
      (step : FlowStep) (context : Context) (log : List StepRecord) (r : Run)
      (outputs : Option Context)
      → job.flow.on_context_collision ≢ collision_error
      → after_outputs job i rest step context log r outputs
        ≡ resume_outputs job i rest step context log r outputs
  unfolding after_outputs resume_outputs merge_step_outputs
  after_outputs-lax step context log r none lax = refl
  after_outputs-lax step context log r (some outputs) lax =
      after_merge-lax job.flow.on_context_collision step.tool_name context log r _ lax

  after_step-lax :
      (step : FlowStep) (context : Context) (log : List StepRecord)
      (result : Result StepRecord × Run)
      → job.flow.on_context_collision ≢ collision_error
      → after_step job i rest step context log result
        ≡ resume_after job i rest step context log result
  unfolding after_step resume_after
  after_step-lax step context log (raise e, r) lax = refl
  after_step-lax step context log (ok rec, r) lax =
      ap (λ t. if rec.success then t else give_up job (log ++ rec ∷ []) r)
        (after_outputs-lax step context (log ++ rec ∷ []) r rec.outputs lax)

-- Where the flow does not ask for an error on a key collision, the loop that resumes a run does on
-- every context, log and state just what the loop of an uninterrupted run does there.
pub resume_steps-run_steps :
    (job : Job) (i : ℕ) (steps : List FlowStep)
    → job.flow.on_context_collision ≢ collision_error
    → run_steps job never i steps ≡ resume_steps job i steps
unfolding run_steps resume_steps unless_cancelled check_cancellation take_step
resume_steps-run_steps job i [] lax = refl
resume_steps-run_steps job i (step ∷ steps) lax =
    ap
      (λ rest context log r.
        after_step job i rest step context log (execute_step job.ex job.flow.name i step context r))
      (resume_steps-run_steps job (suc i) steps lax)
    ∙ λ j context log r.
        after_step-lax job i (resume_steps job (suc i) steps) step context log
          (execute_step job.ex job.flow.name i step context r) lax j
