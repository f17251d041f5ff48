-- ===== src/Executor/Linear/Calls.antt =====
-- The calls of a linear run, against the calls that its executor may make.
use chain_weaver.Common.{
  ℕ, suc, Option, none, some, List, [], ◌∷◌, ◌++◌, ◌≡◌, refl, inl, inr, Bool-cases, length,
}
use chain_weaver.Dict.{update}
use chain_weaver.Value.{Context}
use chain_weaver.Tools.{Call, History}
use chain_weaver.Executor.Types.{
  Result, ok, raise, StepRecord, FlowStep, FlowOutcome, flow_start, Run,
}
use chain_weaver.Executor.Invoke.Calls.{AllAt}
use chain_weaver.Executor.Invoke.Retry.{IsRetrying}
use chain_weaver.Executor.Step.Permits.{Permits}
use chain_weaver.Executor.Step.Frame.{fire}
use chain_weaver.Executor.Step.Body.Whole.{execute_step-Effect}
use chain_weaver.Executor.Result.{Job, Cancel, scoped, check_cancellation}
use chain_weaver.Executor.Result.Keeps.{
  calls-give_up, calls-finish_flow, calls-save_linear_snapshot, calls-check_cancellation,
}
use chain_weaver.Executor.Linear.{
  Rest, after_merge, after_outputs, after_step, take_step, unless_cancelled, run_steps,
  after_input_schema, execute_linear,
}

module _ (Q : Call → History → Type 0) (job : Job) where
  abbrev KeepsAll : Rest → Type 0
  KeepsAll rest =
      (context : Context) (log : List StepRecord) (r : Run)
      → AllAt Q r.calls
      → AllAt Q (rest context log r).1.calls

  module _ (i : ℕ) (rest : Rest) (keeps : KeepsAll rest) where
    after_merge-All :
        (log : List StepRecord) (r : Run) (context : Result Context)
        → AllAt Q r.calls
        → AllAt Q (after_merge job i rest log r context).1.calls
    unfolding after_merge
    after_merge-All log r (raise e) all = all
    after_merge-All log r (ok context) all =
        keeps context log _ (rw (calls-save_linear_snapshot job context log (suc i) r) all)

    after_outputs-All :
        (step : FlowStep) (context : Context) (log : List StepRecord) (r : Run)
        (outputs : Option Context)
        → AllAt Q r.calls
        → AllAt Q (after_outputs job i rest step context log r outputs).1.calls
    unfolding after_outputs
    after_outputs-All step context log r none all = all
    after_outputs-All step context log r (some outputs) all = after_merge-All log r _ all

    after_step-All :
        (step : FlowStep) (context : Context) (log : List StepRecord)
        (result : Result StepRecord × Run)
        → AllAt Q result.1.calls
        → AllAt Q (after_step job i rest step context log result).1.calls
    unfolding after_step
    after_step-All step context log (raise e, r) all = all
    after_step-All step context log (ok rec, r) all = elim (Bool-cases rec.success) [
      | inl good ↦ simp good (after_outputs-All step context (log ++ rec ∷ []) r rec.outputs all)
      | inr bad ↦ simp bad (rw (calls-give_up job (log ++ rec ∷ []) r) all)
    ]

    take_step-All :
        (law : IsRetrying job.ex.retrying) (permits : Permits job.ex Q) (step : FlowStep)
        → KeepsAll (take_step job i rest step)
    unfolding take_step
    take_step-All law permits step context log r all =
        after_step-All step context log _
          (execute_step-Effect Q job.ex law permits job.flow.name i step context r all).1

  pub unless_cancelled-All :
      (cancel : Cancel) (stop : Option (FlowOutcome × Run)) (go_on : FlowOutcome × Run)
      → ((stopped : FlowOutcome × Run) → stop ≡ some stopped → AllAt Q stopped.1.calls)
      → AllAt Q go_on.1.calls
      → AllAt Q (unless_cancelled job cancel stop go_on).1.calls
  unfolding unless_cancelled
  unless_cancelled-All cancel none go_on h all = all
  unless_cancelled-All cancel (some stopped) go_on h all = h stopped refl

  module _ (cancel : Cancel) (law : IsRetrying job.ex.retrying) (permits : Permits job.ex Q) where
    run_steps-All : (i : ℕ) (steps : List FlowStep) → KeepsAll (run_steps job cancel i steps)
    unfolding run_steps
    run_steps-All i [] context log r all = rw (calls-finish_flow job context log r) all
    run_steps-All i (step ∷ steps) context log r all =
        unless_cancelled-All cancel (check_cancellation job cancel i log r) _
          (λ stopped e. rw (calls-check_cancellation job cancel i log r stopped e) all)
          (take_step-All i (run_steps job cancel (suc i) steps) (run_steps-All (suc i) steps) law
            permits step context log r all)

    after_input_schema-All :
        (rec : Result (Option StepRecord)) (r : Run)
        → AllAt Q r.calls
        → AllAt Q (after_input_schema job cancel rec r).1.calls
    unfolding after_input_schema
    after_input_schema-All (raise e) r all = all
    after_input_schema-All (ok (some rec)) r all = rw (calls-give_up job (rec ∷ []) r) all
    after_input_schema-All (ok none) r all =
        run_steps-All 0 job.flow.steps (update job.initial_input job.ex.dynamic_params) [] r all

    -- A linear run keeps a property of all calls that the executor's permitted calls have.
    pub execute_linear-All :
        (r : Run) → AllAt Q r.calls → AllAt Q (execute_linear job cancel r).1.calls
    unfolding execute_linear
    execute_linear-All r all =
        after_input_schema-All _
          (fire (flow_start job.flow.name (length job.flow.steps)) (scoped r)) all
