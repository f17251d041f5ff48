-- ===== src/Executor/Step/Body/Whole.antt =====
-- The phases of `_execute_step` up to the invocation, and the whole method.
use chain_weaver.Common.{
  ℕ, String, Option, none, some, List, [], ◌∷◌, ◌≡◌, refl, inl, inr, arith, Bool-cases, ◌∙◌,
}
use chain_weaver.Dict.{lookup}
use chain_weaver.Value.{Context, pos}
use chain_weaver.Tools.{Call, History, Tool}
use chain_weaver.Executor.Types.{
  Error, Result, ok, raise, StepRecord, FlowStep, Event, step_start, step_end, Run, Executor,
}
use chain_weaver.Executor.Gate.{Gated}
use chain_weaver.Executor.Invoke.Retry.{IsRetrying}
use chain_weaver.Executor.Invoke.Calls.{AllAt, CanRun}
use chain_weaver.Executor.Step.Permits.{Permits, MayCall}
use chain_weaver.Executor.Step.Frame.{Frame, fire, set_calls, dry_run_step}
use chain_weaver.Executor.Step.Frame.Dry.{
  HasOutcome, DryPost, dry_run_step-Post, dry_run_step-eq_none,
}
use chain_weaver.Executor.Step.OnError.Calls.{permits→MayCall}
use chain_weaver.Executor.Step.Decision.{Resolution, run_tool, step_failed, resolve_decision}
use chain_weaver.Executor.Step.Decision.Post.{IsBudgetError, DecisionPost, resolve_decision-Post}
use chain_weaver.Executor.Step.Body.{
  after_dry, run_allowed, after_guardrail, after_gate, run_gated, after_input_contract,
  after_inputs, after_tool, run_step, after_decision, execute_step,
}
use chain_weaver.Executor.Inputs.Uncaught.{
  IsUncaught, RaisesUncaught, check_step_contract-RaisesUncaught,
}
use chain_weaver.Executor.Step.Body.Post.{
  escapes, StepPost, finish-Post, finish-fails, run_cached-Post,
}

-- The step at the index `i` has fired its end, after its start or with no start.
pub data FiresOnce (i : ℕ) (before : List Event) (rec : StepRecord) (events : List Event)
    : Type 0 where
  only_end : events ≡ step_end rec ∷ before → FiresOnce i before rec events
  start_end :
      (name : String) (inputs : Context)
      → events ≡ step_end rec ∷ step_start (pos i) name inputs ∷ before
      → FiresOnce i before rec events

-- What `_execute_step` leaves of the state `r`.
pub record StepEffect (Q : Call → History → Type 0) (i : ℕ) (r : Run) (rec : StepRecord) (r' : Run)
    : Type 0 where
  pub fired : FiresOnce i r.events rec r'.events
  pub outcome : HasOutcome rec
  pub calls : AllAt Q r'.calls
  pub snapshots : r'.snapshots ≡ r.snapshots

-- The step has fired nothing, or its start.
pub data MayStart (i : ℕ) (before events : List Event) : Type 0 where
  silent : events ≡ before → MayStart i before events
  started :
      (name : String) (inputs : Context)
      → events ≡ step_start (pos i) name inputs ∷ before
      → MayStart i before events

-- An exception of `_execute_step` is that the decision budget is spent, or one of a contract or a
-- validation that is not a validation error.
pub data IsStepError (e : Error) : Type 0 where
  over_budget : IsBudgetError e → IsStepError e
  uncaught_error : IsUncaught e → IsStepError e

-- What it leaves of the state `r`.
pub record StepAbort (Q : Call → History → Type 0) (i : ℕ) (r : Run) (e : Error) (r' : Run)
    : Type 0 where
  pub why : IsStepError e
  pub fired : MayStart i r.events r'.events
  pub calls : AllAt Q r'.calls
  pub snapshots : r'.snapshots ≡ r.snapshots

abbrev pub ResultEffect : (Call → History → Type 0) → ℕ → Run → Result StepRecord × Run → Type 0
ResultEffect Q i r (raise e, r') = StepAbort Q i r e r'
ResultEffect Q i r (ok rec, r') = StepEffect Q i r rec r'

StepPost→StepEffect :
    (Q : Call → History → Type 0) (i : ℕ) (r : Run) (result : Result StepRecord × Run)
    → StepPost Q r.events r.snapshots result
    → ResultEffect Q i r result
StepPost→StepEffect Q i r (raise e, r') p = record {
  why = uncaught_error p.why;
  fired = silent p.silent;
  calls = p.calls;
  snapshots = p.snapshots;
}
StepPost→StepEffect Q i r (ok rec, r') p = record {
  fired = only_end p.fired;
  outcome = p.outcome;
  calls = p.calls;
  snapshots = p.snapshots;
}

started→StepEffect :
    (Q : Call → History → Type 0) (i : ℕ) (name : String) (inputs : Context) (r : Run)
    (result : Result StepRecord × Run)
    → StepPost Q (step_start (pos i) name inputs ∷ r.events) r.snapshots result
    → ResultEffect Q i r result
started→StepEffect Q i name inputs r (raise e, r') p = record {
  why = uncaught_error p.why;
  fired = started name inputs p.silent;
  calls = p.calls;
  snapshots = p.snapshots;
}
started→StepEffect Q i name inputs r (ok rec, r') p = record {
  fired = start_end name inputs p.fired;
  outcome = p.outcome;
  calls = p.calls;
  snapshots = p.snapshots;
}

module _ (Q : Call → History → Type 0) (ex : Executor) (law : IsRetrying ex.retrying)
    (permits : Permits ex Q) (flow_name : String) (step : FlowStep) where
  module _ (tool : Tool) (inputs : Context) where
    after_dry-Post :
        (f : Frame) (r : Run) (result : Option StepRecord × History)
        → DryPost Q result
        → (result.0 ≡ none → CanRun Q tool inputs r.calls)
        → AllAt Q r.calls
        → StepPost Q r.events r.snapshots (after_dry ex flow_name step tool inputs f r result)
    unfolding after_dry
    after_dry-Post f r (some rec, h) d can all = finish-Post Q rec (set_calls h r) d.outcome d.calls
    after_dry-Post f r (none, h) d can all =
        run_cached-Post Q ex law permits flow_name step tool inputs f r (can refl) all

    run_allowed-Post :
        (f : Frame) (r : Run)
        → MayCall ex Q tool inputs r.calls
        → AllAt Q r.calls
        → StepPost Q r.events r.snapshots (run_allowed ex flow_name step tool inputs f r)
    unfolding run_allowed
    run_allowed-Post f r may all = elim (Bool-cases ex.dry_run) [
      | inl dry ↦ simp dry (
          after_dry-Post f r (dry_run_step ex tool f inputs [] r.calls)
            (dry_run_step-Post Q ex tool f inputs [] r.calls may.preview all)
            (λ left. may.live (λ _. dry_run_step-eq_none Q ex tool f inputs [] r.calls left)) all)
      | inr real ↦ simp real (
          run_cached-Post Q ex law permits flow_name step tool inputs f r
            (may.live (λ dry. ground arith)) all)
    ]

    after_guardrail-Post :
        (f : Frame) (e : Option Error) (r : Run)
        → MayCall ex Q tool inputs r.calls
        → AllAt Q r.calls
        → StepPost Q r.events r.snapshots (after_guardrail ex flow_name step tool inputs f e r)
    unfolding after_guardrail
    after_guardrail-Post f (some e) r may all = finish-fails Q f inputs e [] r all
    after_guardrail-Post f none r may all = run_allowed-Post f r may all

  after_gate-Post :
      (tool : Tool) (inputs : Context) (f : Frame) (gated : Gated) (r : Run)
      → (gated.0 ≡ none → MayCall ex Q tool inputs r.calls)
      → AllAt Q r.calls
      → StepPost Q r.events r.snapshots (after_gate ex flow_name step tool inputs f gated r)
  unfolding after_gate
  after_gate-Post tool inputs f (some e, approval) r may all = finish-fails Q _ inputs e [] r all
  after_gate-Post tool inputs f (none, approval) r may all =
      after_guardrail-Post tool inputs _ _ r (may refl) all

  run_gated-Post :
      (tool : Tool) (inputs : Context) (f : Frame) (r : Run) (name : String)
      → lookup name ex.tools ≡ some tool
      → AllAt Q r.calls
      → StepPost Q
          (step_start (pos f.step_index) f.tool_name inputs ∷ r.events)
          r.snapshots
          (run_gated ex flow_name step tool inputs f r)
  unfolding run_gated
  run_gated-Post tool inputs f r name found all =
      after_gate-Post tool inputs f _ (fire (step_start (pos f.step_index) f.tool_name inputs) r)
        (permits→MayCall Q ex flow_name inputs permits name tool f.step_index r.calls found) all

  after_input_contract-Effect :
      (tool : Tool) (inputs : Context) (f : Frame) (e : Result (Option Error)) (r : Run)
      (name : String)
      → RaisesUncaught e
      → lookup name ex.tools ≡ some tool
      → AllAt Q r.calls
      → (let result = after_input_contract ex flow_name step tool inputs f e r in
          ResultEffect Q f.step_index r result)
  unfolding after_input_contract
  after_input_contract-Effect tool inputs f (raise e) r name why found all =
      StepPost→StepEffect Q f.step_index r (raise e, r) (escapes Q e r why all)
  after_input_contract-Effect tool inputs f (ok (some e)) r name why found all =
      StepPost→StepEffect Q f.step_index r _ (finish-fails Q f inputs e [] r all)
  after_input_contract-Effect tool inputs f (ok none) r name why found all =
      started→StepEffect Q f.step_index f.tool_name inputs r _
        (run_gated-Post tool inputs f r name found all)

  after_inputs-Effect :
      (tool : Tool) (f : Frame) (inputs : Result Context) (r : Run) (name : String)
      → lookup name ex.tools ≡ some tool
      → AllAt Q r.calls
      → (let result = after_inputs ex flow_name step tool f inputs r in
          ResultEffect Q f.step_index r result)
  unfolding after_inputs
  after_inputs-Effect tool f (raise e) r name found all =
      StepPost→StepEffect Q f.step_index r _ (finish-fails Q f [] e [] r all)
  after_inputs-Effect tool f (ok inputs) r name found all =
      after_input_contract-Effect tool inputs f _ r name
        (check_step_contract-RaisesUncaught f.tool_name f.step_index step.input_contract inputs
          "step_input_contract")
        found all

  after_tool-Effect :
      (context : Context) (f : Frame) (tool : Option Tool) (r : Run) (name : String)
      → lookup name ex.tools ≡ tool
      → AllAt Q r.calls
      → (let result = after_tool ex flow_name step context f tool r in
          ResultEffect Q f.step_index r result)
  unfolding after_tool
  after_tool-Effect context f none r name found all =
      StepPost→StepEffect Q f.step_index r _ (finish-fails Q f [] _ [] r all)
  after_tool-Effect context f (some tool) r name found all =
      after_inputs-Effect tool f _ r name found all

  run_step-Effect :
      (context : Context) (f : Frame) (r : Run)
      → AllAt Q r.calls
      → (let result = run_step ex flow_name step context f r in
          ResultEffect Q f.step_index r result)
  unfolding run_step
  run_step-Effect context f r all =
      after_tool-Effect context f (lookup f.tool_name ex.tools) r f.tool_name refl all

FiresOnce-from :
    {i : ℕ} {before before' events : List Event} {rec : StepRecord}
    → before ≡ before'
    → FiresOnce i before rec events
    → FiresOnce i before' rec events
FiresOnce-from same (only_end e) = only_end (rw (← same) e)
FiresOnce-from same (start_end name inputs e) = start_end name inputs (rw (← same) e)

MayStart-from :
    {i : ℕ} {before before' events : List Event}
    → before ≡ before'
    → MayStart i before events
    → MayStart i before' events
MayStart-from same (silent e) = silent (rw (← same) e)
MayStart-from same (started name inputs e) = started name inputs (rw (← same) e)

module _ (Q : Call → History → Type 0) (ex : Executor) (law : IsRetrying ex.retrying)
    (permits : Permits ex Q) (flow_name : String) (i : ℕ) (step : FlowStep)
    (context : Context) where
  step-from :
      (r r' : Run) (result : Result StepRecord × Run)
      → r'.events ≡ r.events
      → r'.snapshots ≡ r.snapshots
      → ResultEffect Q i r' result
      → ResultEffect Q i r result
  step-from r r' (raise e, r2) same saved effect = record {
    why = effect.why;
    fired = MayStart-from same effect.fired;
    calls = effect.calls;
    snapshots = effect.snapshots ∙ saved;
  }
  step-from r r' (ok rec, r2) same saved effect = record {
    fired = FiresOnce-from same effect.fired;
    outcome = effect.outcome;
    calls = effect.calls;
    snapshots = effect.snapshots ∙ saved;
  }

  after_decision-Effect :
      (r : Run) (decided : Result Resolution × Run)
      → DecisionPost r decided
      → AllAt Q r.calls
      → ResultEffect Q i r (after_decision ex flow_name i step context decided)
  unfolding after_decision
  after_decision-Effect r (raise e, r') ((calls, saved), fired, budget) all = record {
    why = over_budget budget;
    fired = silent fired;
    calls = rw calls all;
    snapshots = saved;
  }
  after_decision-Effect r (ok (step_failed rec), r') ((calls, saved), fired, proper) all = record {
    fired = only_end fired;
    outcome = proper;
    calls = rw calls all;
    snapshots = saved;
  }
  after_decision-Effect r (ok (run_tool name decision), r') ((calls, saved), fired) all =
      step-from r r' _ fired saved (
        run_step-Effect Q ex law permits flow_name step context
          (record {
            step_index = i;
            tool_name = name;
            tool_attempts = 0;
            approval = none;
            decision = decision;
          })
          r' (rw calls all))

  pub execute_step-Effect :
      (r : Run)
      → AllAt Q r.calls
      → ResultEffect Q i r (execute_step ex flow_name i step context r)
        × AllAt Q (execute_step ex flow_name i step context r).1.calls
  unfolding execute_step
  execute_step-Effect r all =
      let effect =
        after_decision-Effect r (resolve_decision ex flow_name step i context r)
          (resolve_decision-Post ex flow_name step i context r) all in
      (effect, ResultEffect-calls r _ effect)
    where
      ResultEffect-calls :
          (r : Run) (result : Result StepRecord × Run)
          → ResultEffect Q i r result
          → AllAt Q result.1.calls
      ResultEffect-calls r (raise e, r') effect = effect.calls
      ResultEffect-calls r (ok rec, r') effect = effect.calls
