-- ===== src/Executor/Tests.antt =====
-- Runs of the executor on the sample flow, and the theorems on it at those inputs.
use chain_weaver.Common.{
  Option, subst, ℕ, Bool, true, false, none, some, [], ◌∷◌, ◌≡◌, refl, arith, length,
}
use chain_weaver.Value.{Context, num, pos}
use chain_weaver.Tools.{run}
use chain_weaver.Executor.Types.{
  RetryPolicy, StepRecord, Run, Result, raise, FlowOutcome, completed, cancelled, aborted,
  collision_error, ok, context_key_collision,
}
use chain_weaver.Executor.Samples.{
  live_job, dry_job, live_executor, get_sync, after_first, fresh, fetch, save_step, retry_twice,
  no_attempts, strict_job, saved_record,
}
use chain_weaver.Executor.Linear.{
  execute_linear, after_input_schema, after_merge, after_outputs, after_step, run_steps, take_step,
  unless_cancelled,
}
use chain_weaver.Executor.Result.{
  validate_flow_schema, check_cancellation, after_context_schema, after_output_schema, finish_flow,
  give_up, make_result, save_linear_snapshot, schema_record, snapshot_of, tool_hashes, never,
}
use chain_weaver.Executor.Resume.{
  resume_flow, resume_loaded, resume_linear_flow, resume_steps, resume_after, resume_outputs,
  after_mapping, load_snapshot_for_resume, check_snapshot, check_flow, first_drift, drift_of,
}
use chain_weaver.Executor.Step.Body.{
  execute_step, run_step, run_gated, run_allowed, run_cached, run_live,
}
use chain_weaver.Executor.Step.Decision.{resolve_decision}
use chain_weaver.Executor.Step.Frame.{dry_run_step, finish, make_record}
use chain_weaver.Executor.Inputs.{resolve_inputs, check_step_contract}
use chain_weaver.Executor.Gate.{evaluate_safety_gate, evaluate_input_guardrail}
use chain_weaver.Executor.Invoke.{invoke_tool, attempt, retry_disallowed_by_contract}
use chain_weaver.Executor.Invoke.Calls.{AllAt}
use chain_weaver.Executor.Invoke.Retry.{documented}
use chain_weaver.Executor.Merge.{
  apply_output_mapping, collisions, merge_after, merge_projected, merge_step_outputs, project,
  project_found, unless_colliding,
}
use chain_weaver.Dict.{lookup, insert, remove, update}
use chain_weaver.Contracts.Levels.{side_effect_exceeds}
use chain_weaver.Versions.{same_major, major}
use chain_weaver.Pointer.{is_pointer}
use chain_weaver.Executor.Resume.Recovery.{Resumable}
use chain_weaver.Executor.Resume.Cancel.{execute_linear-Resumable}
use chain_weaver.Executor.Resume.Drift.{load_snapshot-snapshot_of}
use chain_weaver.Executor.Resume.Sound.{resume_steps-run_steps}
use chain_weaver.Executor.Resume.Collision.{resume-collides}
use chain_weaver.Executor.Invoke.Calls.{AllAt}
use chain_weaver.Executor.Invoke.Retry.{documented-IsRetrying, Resolves, Counts, invoke_tool-Counts}
use chain_weaver.Executor.Merge.Meaning.{Merges, merge_step_outputs-Merges}

abbrev steps_done : FlowOutcome → ℕ
steps_done (completed result) = length result.execution_log
steps_done (cancelled n deadline token partial) = n
steps_done (aborted e) = 100

abbrev is_success : FlowOutcome → Bool
is_success (completed result) = result.success
is_success (cancelled n deadline token partial) = false
is_success (aborted e) = false

-- A live run succeeds, with three calls, since the first attempt fails and is made again; cancelled
-- before its second step it stops there, and resumed it succeeds; a dry run does not call the tool
-- that writes.
runs :
    (is_success (execute_linear live_job never fresh).0 ≡ true)
    × (length (execute_linear live_job never fresh).1.calls ≡ 3)
    × (steps_done (execute_linear live_job after_first fresh).0 ≡ 1)
    × (is_success
          (resume_flow live_executor get_sync "t1" 0
            (execute_linear live_job after_first fresh).1).0
        ≡ true)
    × (length (execute_linear dry_job never fresh).1.calls ≡ 2)
unfolding execute_linear after_input_schema after_merge after_outputs after_step run_steps take_step
    unless_cancelled validate_flow_schema check_cancellation after_context_schema
    after_output_schema finish_flow give_up make_result save_linear_snapshot schema_record
    snapshot_of tool_hashes resume_flow resume_loaded resume_linear_flow resume_steps resume_after
    resume_outputs after_mapping load_snapshot_for_resume check_snapshot check_flow first_drift
    drift_of execute_step run_step run_gated run_allowed run_cached run_live resolve_decision
    dry_run_step finish make_record resolve_inputs check_step_contract evaluate_safety_gate
    evaluate_input_guardrail invoke_tool attempt retry_disallowed_by_contract documented
    apply_output_mapping collisions merge_after merge_projected merge_step_outputs project
    project_found unless_colliding lookup insert remove update side_effect_exceeds same_major major
    is_pointer run
runs = (refl, refl, refl, refl, refl)

execute_linear-Resumable_example :
    Resumable live_job get_sync 0
      (execute_linear live_job never fresh)
      (execute_linear live_job after_first fresh)
execute_linear-Resumable_example =
    execute_linear-Resumable live_job get_sync 0 refl refl refl (λ e. ground arith) after_first
      documented-IsRetrying fresh

invoke_tool-Counts_example :
    Counts no_attempts 3 (invoke_tool live_executor fetch [] (some retry_twice) no_attempts)
unfolding retry_disallowed_by_contract
invoke_tool-Counts_example =
    invoke_tool-Counts live_executor fetch [] (some retry_twice) no_attempts documented-IsRetrying
      (λ p same. subst (λ o. one_resolves o) same tt)
  where
    one_resolves : Option RetryPolicy → Type 0
    one_resolves none = Unit
    one_resolves (some p) = Resolves (live_executor.retryable p.retryable_errors)

merge_step_outputs-Merges_example :
    Merges collision_error (("rows", num (pos 1)) ∷ []) (("rows", num (pos 3)) ∷ []) (
      merge_step_outputs collision_error "fetch" 0
        (("rows", num (pos 1)) ∷ [])
        (("rows", num (pos 3)) ∷ [])
        none)
unfolding apply_output_mapping lookup
merge_step_outputs-Merges_example =
    merge_step_outputs-Merges "fetch" 0 collision_error (("rows", num (pos 1)) ∷ [])
      (("rows", num (pos 3)) ∷ []) (("rows", num (pos 3)) ∷ []) none (refl, tt) refl

load_snapshot-snapshot_of_example :
    load_snapshot_for_resume live_job.ex get_sync live_job.trace_id
      (save_linear_snapshot live_job [] [] 1 fresh)
    ≡ ok (live_job.flow, snapshot_of live_job [] [] 1 0)
unfolding save_linear_snapshot insert lookup
load_snapshot-snapshot_of_example =
    load_snapshot-snapshot_of live_job get_sync [] [] 1 0
      (save_linear_snapshot live_job [] [] 1 fresh) refl refl refl

resume_steps-run_steps_example :
    run_steps live_job never 1 (save_step ∷ []) ≡ resume_steps live_job 1 (save_step ∷ [])
resume_steps-run_steps_example =
    resume_steps-run_steps live_job 1 (save_step ∷ []) (λ e. ground arith)

abbrev saved_before : Context
saved_before = ("saved", num (pos 1)) ∷ ("rows", num (pos 3)) ∷ []

abbrev saving : Result StepRecord × Run
saving = execute_step strict_job.ex "sync" 1 save_step saved_before fresh

abbrev record_of : Result StepRecord → StepRecord
record_of (ok rec) = rec
record_of (raise e) = saved_record

resume-collides_example :
    (run_steps strict_job never 1 (save_step ∷ []) saved_before [] fresh
      ≡ (aborted (context_key_collision "save" 1 ("saved" ∷ [])), saving.1))
    × (resume_steps strict_job 1 (save_step ∷ []) saved_before [] fresh
        ≡ resume_steps strict_job 2 []
            (update saved_before (("saved", num (pos 3)) ∷ []))
            (record_of saving.0 ∷ [])
            (save_linear_snapshot strict_job
              (update saved_before (("saved", num (pos 3)) ∷ []))
              (record_of saving.0 ∷ [])
              2
              saving.1))
unfolding execute_step run_step run_gated run_allowed run_cached run_live resolve_decision finish
    make_record resolve_inputs check_step_contract evaluate_safety_gate evaluate_input_guardrail
    invoke_tool attempt retry_disallowed_by_contract documented apply_output_mapping collisions
    lookup insert side_effect_exceeds is_pointer run
resume-collides_example =
    resume-collides strict_job 1 save_step [] saved_before [] (record_of saving.0) fresh saving.1
      (("saved", num (pos 3)) ∷ []) (("saved", num (pos 3)) ∷ []) "saved" [] refl refl refl refl
      refl refl
