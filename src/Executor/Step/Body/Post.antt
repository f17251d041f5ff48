-- ===== src/Executor/Step/Body/Post.antt =====
-- What each phase of `_execute_step` leaves: a proper record, one `step_end` that carries it, a
-- history of permitted calls, and the checkpoints as they were.
use chain_weaver.Common.{
  String, true, false, Option, none, some, List, [], ◌∷◌, ◌≡◌, refl, inl, inr, Bool-cases,
}
use chain_weaver.Dict.{Dict}
use chain_weaver.Value.{Context}
use chain_weaver.Tools.{Call, History, Outcome, returned, raised, Tool}
use chain_weaver.Executor.Inputs.Uncaught.{
  IsUncaught, RaisesUncaught, caught_validation-RaisesUncaught, check_step_contract-RaisesUncaught,
}
use chain_weaver.Executor.Types.{
  Error, Result, ok, raise, RetryNote, StepRecord, FlowStep, Attempts, Event, step_end, Snapshot,
  Run, Executor,
}
use chain_weaver.Executor.Invoke.Retry.{IsRetrying}
use chain_weaver.Executor.Invoke.Calls.{AllAt, CanRun, invoke_tool-All}
use chain_weaver.Executor.Step.Permits.{Permits}
use chain_weaver.Executor.Step.Frame.{Frame, failed, succeeded, set_calls, finish}
use chain_weaver.Executor.Step.Frame.Dry.{
  HasOutcome, fails, succeeds, make_record-fails, make_record-succeeds,
}
use chain_weaver.Executor.Step.OnError.Calls.{CallsPost, apply_on_error-Post}
use chain_weaver.Executor.Step.Body.{
  store, after_contract, after_error, after_invoke, run_live, after_hit, after_lookup,
  after_validation, uses_cache, run_cached,
}

-- From a state with the events `before`: one `step_end`, with the record, is all that follows; or an
-- exception that nothing catches follows, and no event.
pub record Finished (Q : Call → History → Type 0) (before : List Event) (saved : Dict Snapshot)
    (rec : StepRecord) (r' : Run) : Type 0 where
  pub fired : r'.events ≡ step_end rec ∷ before
  pub outcome : HasOutcome rec
  pub calls : AllAt Q r'.calls
  pub snapshots : r'.snapshots ≡ saved

pub record Escaped (Q : Call → History → Type 0) (before : List Event) (saved : Dict Snapshot)
    (e : Error) (r' : Run) : Type 0 where
  pub silent : r'.events ≡ before
  pub why : IsUncaught e
  pub calls : AllAt Q r'.calls
  pub snapshots : r'.snapshots ≡ saved

abbrev pub StepPost :
    (Call → History → Type 0) → List Event → Dict Snapshot → Result StepRecord × Run → Type 0
StepPost Q before saved (ok rec, r') = Finished Q before saved rec r'
StepPost Q before saved (raise e, r') = Escaped Q before saved e r'

pub escapes :
    (Q : Call → History → Type 0) (e : Error) (r : Run)
    → IsUncaught e
    → AllAt Q r.calls
    → StepPost Q r.events r.snapshots (raise e, r)
escapes Q e r why all = record { silent = refl; why = why; calls = all; snapshots = refl }

pub finish-Post :
    (Q : Call → History → Type 0) (rec : StepRecord) (r : Run)
    → HasOutcome rec
    → AllAt Q r.calls
    → StepPost Q r.events r.snapshots (finish rec r)
unfolding finish
finish-Post Q rec r o all = record { fired = refl; outcome = o; calls = all; snapshots = refl }

pub finish-fails :
    (Q : Call → History → Type 0) (f : Frame) (inputs : Context) (e : Error)
    (notes : List RetryNote) (r : Run)
    → AllAt Q r.calls
    → StepPost Q r.events r.snapshots (finish (failed f inputs e notes) r)
finish-fails Q f inputs e notes r all =
    finish-Post Q (failed f inputs e notes) r (make_record-fails f inputs e false notes) all

cached-HasOutcome : (rec : StepRecord) → HasOutcome rec → HasOutcome (record rec { cached = true })
cached-HasOutcome rec (fails e s x o) = fails e s x o
cached-HasOutcome rec (succeeds outputs s o) = succeeds outputs s o

module _ (Q : Call → History → Type 0) (ex : Executor) (law : IsRetrying ex.retrying)
    (permits : Permits ex Q) (flow_name : String) (step : FlowStep) where
  module _ (tool : Tool) (inputs : Context) where
    after_contract-Post :
        (f : Frame) (key : Option String) (outputs : Context) (notes : List RetryNote)
        (e : Result (Option Error)) (r : Run)
        → RaisesUncaught e
        → AllAt Q r.calls
        → StepPost Q r.events r.snapshots
            (after_contract ex flow_name step tool inputs f key outputs notes e r)
    unfolding after_contract
    after_contract-Post f key outputs notes (raise e) r why all = escapes Q e r why all
    after_contract-Post f key outputs notes (ok (some e)) r why all =
        finish-fails Q f inputs e notes r all
    after_contract-Post f none outputs notes (ok none) r why all =
        finish-Post Q (succeeded f inputs outputs notes) r
          (make_record-succeeds f inputs outputs none false notes) all
    after_contract-Post f (some key) outputs notes (ok none) r why all =
        finish-Post Q (succeeded f inputs outputs notes)
          (store ex flow_name step tool inputs (some key) outputs r)
          (make_record-succeeds f inputs outputs none false notes) all

    after_error-Post :
        (result : StepRecord × History) (r : Run)
        → CallsPost Q result
        → StepPost Q r.events r.snapshots (after_error ex flow_name step tool inputs result r)
    unfolding after_error
    after_error-Post (rec, h) r c = finish-Post Q rec (set_calls h r) c.outcome c.calls

    after_invoke-Post :
        (f : Frame) (key : Option String) (r : Run) (result : Outcome Context × Attempts)
        → AllAt Q result.1.calls
        → StepPost Q r.events r.snapshots
            (after_invoke ex flow_name step tool inputs f key r result)
    unfolding after_invoke
    after_invoke-Post f key r (raised e, a) all =
        after_error-Post _ r
          (apply_on_error-Post Q ex flow_name inputs permits _ step.on_error _ a.errors a.calls all)
    after_invoke-Post f key r (returned outputs, a) all =
        after_contract-Post _ key outputs a.errors _ (set_calls a.calls r)
          (check_step_contract-RaisesUncaught f.tool_name f.step_index step.output_contract outputs
            "step_output_contract")
          all

    run_live-Post :
        (f : Frame) (key : Option String) (r : Run)
        → CanRun Q tool inputs r.calls
        → AllAt Q r.calls
        → StepPost Q r.events r.snapshots (run_live ex flow_name step tool inputs f key r)
    unfolding run_live
    run_live-Post f key r can all =
        after_invoke-Post f key r _ (invoke_tool-All Q ex tool inputs step.retry _ law can all)

    after_hit-Post :
        (f : Frame) (cached : Context) (e : Result (Option Error)) (r : Run)
        → RaisesUncaught e
        → CanRun Q tool inputs r.calls
        → AllAt Q r.calls
        → StepPost Q r.events r.snapshots (after_hit ex flow_name step tool inputs f cached e r)
    unfolding after_hit
    after_hit-Post f cached (raise e) r why can all = escapes Q e r why all
    after_hit-Post f cached (ok (some e)) r why can all = finish-fails Q f inputs e [] r all
    after_hit-Post f cached (ok none) r why can all =
        finish-Post Q _ r (cached-HasOutcome _ (make_record-succeeds f inputs cached none false []))
          all

    after_lookup-Post :
        (f : Frame) (key : String) (hit : Option Context) (r : Run)
        → CanRun Q tool inputs r.calls
        → AllAt Q r.calls
        → StepPost Q r.events r.snapshots (after_lookup ex flow_name step tool inputs f key hit r)
    unfolding after_lookup
    after_lookup-Post f key none r can all = run_live-Post f (some key) r can all
    after_lookup-Post f key (some cached) r can all =
        after_hit-Post f cached _ r
          (check_step_contract-RaisesUncaught f.tool_name f.step_index step.output_contract cached
            "step_output_contract")
          can all

    after_validation-Post :
        (f : Frame) (validated : Result (Option Context)) (r : Run)
        → RaisesUncaught validated
        → CanRun Q tool inputs r.calls
        → AllAt Q r.calls
        → StepPost Q r.events r.snapshots
            (after_validation ex flow_name step tool inputs f validated r)
    unfolding after_validation
    after_validation-Post f (raise e) r why can all = escapes Q e r why all
    after_validation-Post f (ok none) r why can all = run_live-Post f none r can all
    after_validation-Post f (ok (some validated)) r why can all = after_lookup-Post f _ _ r can all

    pub run_cached-Post :
        (f : Frame) (r : Run)
        → CanRun Q tool inputs r.calls
        → AllAt Q r.calls
        → StepPost Q r.events r.snapshots (run_cached ex flow_name step tool inputs f r)
    unfolding run_cached
    run_cached-Post f r can all = elim (Bool-cases (uses_cache ex flow_name step tool inputs)) [
      | inl yes_cache ↦ simp yes_cache (
          after_validation-Post f _ r (caught_validation-RaisesUncaught (tool.input_schema inputs))
            can all)
      | inr no_cache ↦ simp no_cache (run_live-Post f none r can all)
    ]
