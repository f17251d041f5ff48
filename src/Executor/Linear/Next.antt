-- ===== src/Executor/Linear/Next.antt =====
-- One step of a linear run, apart from what follows it: it ends the run, or goes on to the rest.
use chain_weaver.Common.{
  ℕ, suc, true, false, Option, none, some, List, [], ◌∷◌, ◌++◌, ◌≡◌, refl, inl, inr, arith,
  Bool-cases,
}
use chain_weaver.Value.{Context}
use chain_weaver.Tools.{Call, History}
use chain_weaver.Executor.Types.{
  Error, Result, ok, raise, StepRecord, FlowStep, ExecutionResult, FlowOutcome, completed, aborted,
  Run,
}
use chain_weaver.Executor.Merge.Laws.{IsMergeError, RaisesOnly, merge_step_outputs-RaisesOnly}
use chain_weaver.Executor.Invoke.Calls.{AllAt}
use chain_weaver.Executor.Invoke.Retry.{IsRetrying}
use chain_weaver.Executor.Step.Permits.{Permits}
use chain_weaver.Executor.Step.Body.{execute_step}
use chain_weaver.Executor.Step.Frame.Dry.{HasOutcome, fails, succeeds}
use chain_weaver.Executor.Step.Decision.Post.{IsBudgetError}
use chain_weaver.Executor.Inputs.Uncaught.{IsUncaught}
use chain_weaver.Executor.Step.Body.Whole.{
  IsStepError, over_budget, uncaught_error, ResultEffect, execute_step-Effect,
}
use chain_weaver.Executor.Result.{Job, give_up, make_result, save_linear_snapshot}
use chain_weaver.Executor.Linear.{Rest, after_merge, after_outputs, after_step, take_step}

-- Why a run may raise an exception: the budget, the merge of outputs, or an exception of a schema or
-- a contract that is not a validation error.
pub data IsAbort (e : Error) : Type 0 where
  budget_spent : IsBudgetError e → IsAbort e
  bad_merge : IsMergeError e → IsAbort e
  escaped : IsUncaught e → IsAbort e

pub step_error : (e : Error) → IsStepError e → IsAbort e
step_error e (over_budget budget) = budget_spent budget
step_error e (uncaught_error why) = escaped why

-- How the step at the index `i` may end a run whose log is `log`.
pub data Ends (log : List StepRecord) : FlowOutcome → Type 0 where
  raises : (e : Error) → IsAbort e → Ends log (aborted e)
  failed_at :
      (result : ExecutionResult) (rec : StepRecord)
      → result.success ≡ false
      → result.final_output ≡ none
      → result.execution_log ≡ log ++ rec ∷ []
      → rec.success ≡ false
      → Ends log (completed result)

-- `f` is a step at the index `i`, given what follows it.
pub data Next (job : Job) (i : ℕ) (log : List StepRecord) (f : Rest → FlowOutcome × Run)
    : Type 0 where
  ends :
      (out : FlowOutcome × Run) → Ends log out.0 → ((rest : Rest) → f rest ≡ out) → Next job i log f
  goes_on :
      (context : Context) (rec : StepRecord) (r : Run)
      → rec.success ≡ true
      → ((rest : Rest)
          → f rest
            ≡ rest context
                (log ++ rec ∷ [])
                (save_linear_snapshot job context (log ++ rec ∷ []) (suc i) r))
      → Next job i log f

module _ (job : Job) (i : ℕ) (log : List StepRecord) where
  after_merge-Next :
      (rec : StepRecord) (r : Run) (context : Result Context)
      → rec.success ≡ true
      → RaisesOnly context
      → Next job i log (λ rest. after_merge job i rest (log ++ rec ∷ []) r context)
  unfolding after_merge
  after_merge-Next rec r (raise e) good errors =
      ends (aborted e, r) (raises e (bad_merge errors)) (λ rest. refl)
  after_merge-Next rec r (ok context) good errors = goes_on context rec r good (λ rest. refl)

  after_outputs-Next :
      (step : FlowStep) (context : Context) (rec : StepRecord) (r : Run) (outputs : Option Context)
      → rec.success ≡ true
      → HasOutcome rec
      → rec.outputs ≡ outputs
      → Next job i log (λ rest. after_outputs job i rest step context (log ++ rec ∷ []) r outputs)
  unfolding after_outputs
  after_outputs-Next step context rec r none good (fails x bad err out) e = ground arith
  after_outputs-Next step context rec r none good (succeeds outputs fine out) e = ground arith
  after_outputs-Next step context rec r (some outputs) good proper e =
      after_merge-Next rec r _ good (
        merge_step_outputs-RaisesOnly step.tool_name i job.flow.on_context_collision context outputs
          step.output_mapping)

  after_step-Next :
      (Q : Call → History → Type 0) (r : Run) (step : FlowStep) (context : Context)
      (result : Result StepRecord × Run)
      → ResultEffect Q i r result
      → Next job i log (λ rest. after_step job i rest step context log result)
  unfolding after_step
  after_step-Next Q r step context (raise e, r') abort =
      ends (aborted e, r') (raises e (step_error e abort.why)) (λ rest. refl)
  after_step-Next Q r step context (ok rec, r') effect = elim (Bool-cases rec.success) [
    | inl good ↦
        simp good (after_outputs-Next step context rec r' rec.outputs good effect.outcome refl)
    | inr bad ↦ simp bad (
        ends (give_up job (log ++ rec ∷ []) r')
          (unfold give_up make_result in failed_at _ rec refl refl refl bad) (λ rest. refl))
  ]

abbrev pub Anything : Call → History → Type 0
Anything call h = Unit

-- What a step does, but for the calls that it makes.
pub execute_step-Anything :
    (job : Job) (i : ℕ) (step : FlowStep) (context : Context) (r : Run)
    → IsRetrying job.ex.retrying
    → ResultEffect Anything i r (execute_step job.ex job.flow.name i step context r)
execute_step-Anything job i step context r law =
    (execute_step-Effect Anything job.ex law trivial job.flow.name i step context r
      (everything r.calls)).0
  where
    trivial : Permits job.ex Anything
    trivial = record {
      live = λ name tool flow_name i inputs h found passed reads validated t accepted since. tt;
      preview = λ name tool flow_name i inputs h found passed validated t accepted since. tt;
    }

    everything : (h : List Call) → AllAt Anything h
    everything [] = tt
    everything (call ∷ h) = (tt, everything h)

-- A step of a linear run either ends it or hands a context, the log with one more record of success
-- and a state to the rest, whatever the rest is.
pub take_step-Next :
    (job : Job) (i : ℕ) (step : FlowStep) (context : Context) (log : List StepRecord) (r : Run)
    → IsRetrying job.ex.retrying
    → Next job i log (λ rest. take_step job i rest step context log r)
unfolding take_step
take_step-Next job i step context log r law =
    after_step-Next job i log Anything r step context _
      (execute_step-Anything job i step context r law)
