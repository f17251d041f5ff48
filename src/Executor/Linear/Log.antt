-- ===== src/Executor/Linear/Log.antt =====
-- The execution log that a linear run leaves.
use chain_weaver.Common.{
  ℕ, ◌<◌, ◌≤◌, String, Bool, true, false, Option, none, some, List, [], ◌∷◌, ◌++◌, ◌≡◌, refl, ◌||◌,
  All, length,
}
use chain_weaver.Value.{ℤ, Context}
use chain_weaver.Tools.{Schema}
use chain_weaver.Executor.Inputs.Uncaught.{
  IsUncaught, RaisesUncaught, caught_validation-RaisesUncaught,
}
use chain_weaver.Executor.Types.{
  Error, Result, ok, raise, caught_validation, StepRecord, ExecutionResult, FlowOutcome, completed,
  cancelled, aborted,
}
use chain_weaver.Executor.Result.{Job, schema_record, validate_flow_schema}
use chain_weaver.Executor.Linear.Next.{IsAbort, Next}

abbrev pub Succeeded : StepRecord → Type 0
Succeeded rec = rec.success ≡ true

-- A log of successes.
abbrev pub Fine : List StepRecord → Type 0
Fine log = All Succeeded log

-- What the outcome of a linear run says of its log. A result of success has one record of success
-- for each step, and an output; any other result has no output, and its log is records of success,
-- at most one for each step, and one failure at the end. A cancelled run stopped before a step of
-- the flow, by its deadline or its token, with one record of success for each step before it. An
-- exception is that the decision budget is spent, that outputs cannot be merged, or what a schema, a
-- contract or their references raise that is not a validation error.
pub data LogPost (job : Job) : FlowOutcome → Type 0 where
  all_steps :
      (result : ExecutionResult) (final : Context)
      → result.success ≡ true
      → result.final_output ≡ some final
      → length result.execution_log ≡ length job.flow.steps
      → Fine result.execution_log
      → LogPost job (completed result)
  last_failed :
      (result : ExecutionResult) (good : List StepRecord) (bad : StepRecord)
      → result.success ≡ false
      → result.final_output ≡ none
      → result.execution_log ≡ good ++ bad ∷ []
      → length good ≤ length job.flow.steps
      → Fine good
      → bad.success ≡ false
      → LogPost job (completed result)
  stopped :
      (n : ℕ) (deadline token : Bool) (partial : ExecutionResult)
      → (deadline || token) ≡ true
      → n < length job.flow.steps
      → length partial.execution_log ≡ n
      → Fine partial.execution_log
      → partial.success ≡ false
      → LogPost job (cancelled n deadline token partial)
  broke : (e : Error) → IsAbort e → LogPost job (aborted e)

pub Fine-append :
    (log : List StepRecord) (rec : StepRecord) → Fine log → Succeeded rec → Fine (log ++ rec ∷ [])
Fine-append [] rec fine good = (good, tt)
Fine-append (first ∷ log) rec (this, fine) good = (this, Fine-append log rec fine good)

module _ (job : Job) where
  -- A failed validation is a failed record, or an exception that nothing catches.
  unfoldable pub Failure : Result (Option StepRecord) → Type 0
  Failure (raise e) = IsUncaught e
  Failure (ok none) = Unit
  Failure (ok (some rec)) = rec.success ≡ false

  schema_record-Failure :
      (i : ℤ) (label : String) (payload : Context) (o : Result (Option Context))
      → RaisesUncaught o
      → Failure (schema_record job i label payload o)
  unfolding schema_record Failure
  schema_record-Failure i label payload (raise e) why = why
  schema_record-Failure i label payload (ok (some dumped)) why = tt
  schema_record-Failure i label payload (ok none) why = refl

  pub validate-Failure :
      (schema : Option Schema) (i : ℤ) (label : String) (payload : Context)
      → Failure (validate_flow_schema job schema i label payload)
  unfolding validate_flow_schema Failure
  validate-Failure none i label payload = tt
  validate-Failure (some schema) i label payload =
      schema_record-Failure i label payload (caught_validation (schema payload))
        (caught_validation-RaisesUncaught (schema payload))
