-- ===== src/Executor/Result/Keeps.antt =====
-- The calls of a run, across the code round the steps.
use chain_weaver.Common.{ℕ, Bool, true, false, Option, none, some, List, ◌≡◌, refl, arith}
use chain_weaver.Value.{Context}
use chain_weaver.Executor.Types.{Result, ok, raise, StepRecord, FlowOutcome, Run}
use chain_weaver.Executor.Result.{
  Job, Cancel, make_result, give_up, check_cancellation, finish_flow, after_output_schema,
  after_context_schema, save_linear_snapshot,
}

module _ (job : Job) where
  calls-make_result :
      (success : Bool) (final : Option Context) (log : List StepRecord) (r : Run)
      → (make_result job success final log r).1.calls ≡ r.calls
  unfolding make_result
  calls-make_result success final log r = ground arith

  pub calls-give_up : (log : List StepRecord) (r : Run) → (give_up job log r).1.calls ≡ r.calls
  unfolding give_up
  calls-give_up log r = calls-make_result false none log r

  calls-after_context_schema :
      (rec : Result (Option StepRecord)) (context : Context) (log : List StepRecord) (r : Run)
      → (after_context_schema job rec context log r).1.calls ≡ r.calls
  unfolding after_context_schema
  calls-after_context_schema (raise e) context log r = refl
  calls-after_context_schema (ok (some rec)) context log r = calls-give_up _ r
  calls-after_context_schema (ok none) context log r = calls-make_result true (some context) log r

  calls-after_output_schema :
      (rec : Result (Option StepRecord)) (context : Context) (log : List StepRecord) (r : Run)
      → (after_output_schema job rec context log r).1.calls ≡ r.calls
  unfolding after_output_schema
  calls-after_output_schema (raise e) context log r = refl
  calls-after_output_schema (ok (some rec)) context log r = calls-give_up _ r
  calls-after_output_schema (ok none) context log r = calls-after_context_schema _ context log r

  pub calls-finish_flow :
      (context : Context) (log : List StepRecord) (r : Run)
      → (finish_flow job context log r).1.calls ≡ r.calls
  unfolding finish_flow
  calls-finish_flow context log r = calls-after_output_schema _ context log r

  pub calls-save_linear_snapshot :
      (context : Context) (log : List StepRecord) (n : ℕ) (r : Run)
      → (save_linear_snapshot job context log n r).calls ≡ r.calls
  unfolding save_linear_snapshot
  calls-save_linear_snapshot context log n r = ground arith

  pub calls-check_cancellation :
      (c : Cancel) (i : ℕ) (log : List StepRecord) (r : Run) (stopped : FlowOutcome × Run)
      → check_cancellation job c i log r ≡ some stopped
      → stopped.1.calls ≡ r.calls
  unfolding check_cancellation
  calls-check_cancellation c i log r stopped e = ground arith
