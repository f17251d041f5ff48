-- ===== src/Executor/Step/Decision.antt =====
-- `_resolve_decision` of chainweaver/executor.py, with `_call_decision_with_timeout`.
pub mod Post
use chain_weaver.Common.{
  ℕ, suc, String, Bool, true, false, Option, none, some, List, [], ◌∷◌, ltb, contains,
  if◌then◌else◌,
}
use chain_weaver.Value.{Context, pos}
use chain_weaver.Tools.{History, Exc, Outcome, returned, raised}
use chain_weaver.Executor.Types.{
  Error, decision_callback_error, decision_timeout, decision_budget_exceeded, Result, ok, raise,
  DecisionRecord, StepRecord, FlowStep, DecisionContext, DecisionAnswer, DecisionPolicy, OnTimeout,
  timeout_error, timeout_default, Event, step_end, Run, Executor,
}
use chain_weaver.Executor.Step.Frame.{Frame, make_record, failed, fire}

-- How a decision point ends: the tool to run with the record of the choice, or a failed step.
pub data Resolution : Type 0 where
  run_tool : String → Option DecisionRecord → Resolution
  step_failed : StepRecord → Resolution

abbrev is_over : Option ℕ → ℕ → Bool
is_over none n = false
is_over (some cap) n = ltb cap n

module _ (ex : Executor) (flow_name : String) (step_index : ℕ) (context : Context)
    (default : String) (candidates : List String) where
  abbrev plain_frame : Frame
  plain_frame = record {
    step_index = step_index;
    tool_name = default;
    tool_attempts = 0;
    approval = none;
    decision = none;
  }

  -- `_failed`
  decision_failed : Error → Resolution
  unfolding make_record
  decision_failed e = step_failed (failed plain_frame [] e [])

  abbrev choice : String → Bool → DecisionRecord
  choice chosen timed_out = record {
    candidates = candidates;
    chosen = chosen;
    default_tool_name = default;
    timed_out = timed_out;
  }

  chosen_of : Outcome String → Resolution
  unfolding decision_failed
  chosen_of (raised e) =
      decision_failed (decision_callback_error default step_index "callback raised")
  chosen_of (returned chosen) =
      if contains chosen candidates
      then run_tool chosen (some (choice chosen false))
      else decision_failed (
          decision_callback_error default step_index
            "callback returned a name which is not in decision_candidates")

  timed_out_by : OnTimeout → Resolution
  unfolding decision_failed
  timed_out_by timeout_error = decision_failed (decision_timeout default step_index)
  timed_out_by timeout_default = run_tool default (some (choice default true))

  -- The callback runs on a thread that is joined for at most the timeout.
  answer_of : Option DecisionPolicy → DecisionAnswer → Resolution
  unfolding chosen_of timed_out_by
  answer_of none answer = chosen_of answer.chosen
  answer_of (some policy) answer = elim policy.timeout_s [
    | none ↦ chosen_of answer.chosen
    | some limit ↦
        if ltb limit answer.duration
        then timed_out_by policy.on_timeout
        else chosen_of answer.chosen
  ]

abbrev budget_of : Option DecisionPolicy → Option ℕ
budget_of none = none
budget_of (some policy) = policy.max_decisions_per_flow

abbrev budget_number : Option ℕ → ℕ
budget_number none = 0
budget_number (some n) = n

-- A failed decision fires its `step_end`.
settle : Resolution → Run → Result Resolution × Run
settle (step_failed rec) r = (ok (step_failed rec), fire (step_end rec) r)
settle (run_tool name decision) r = (ok (run_tool name decision), r)

-- The count, the budget, and the consultation of the callback.
consult :
    Executor
    → String
    → FlowStep
    → ℕ
    → Context
    → List String
    → (History → DecisionContext → DecisionAnswer)
    → Run
    → Result Resolution × Run
unfolding settle answer_of
consult ex flow_name step step_index context candidates callback r =
    let counted = record r { decision_count = suc r.decision_count } in
    let budget = budget_of ex.decision_policy in
    let answer = callback r.calls (record {
      flow_name = flow_name;
      step_index = step_index;
      default_tool_name = step.tool_name;
      candidates = candidates;
      context = context;
    }) in
    if is_over budget counted.decision_count
    then (raise (decision_budget_exceeded flow_name (budget_number budget)), counted)
    else settle
        (answer_of ex flow_name step_index context step.tool_name candidates ex.decision_policy
          answer)
        counted

-- A decision point, where the step has candidates and the executor a callback.
decide_by :
    Executor
    → String
    → FlowStep
    → ℕ
    → Context
    → Option (List String)
    → Option (History → DecisionContext → DecisionAnswer)
    → Run
    → Result Resolution × Run
unfolding consult
decide_by ex flow_name step i context none callback r = (ok (run_tool step.tool_name none), r)
decide_by ex flow_name step i context (some candidates) none r =
    (ok (run_tool step.tool_name none), r)
decide_by ex flow_name step i context (some candidates) (some callback) r =
    consult ex flow_name step i context candidates callback r

unfoldable pub resolve_decision :
    Executor → String → FlowStep → ℕ → Context → Run → Result Resolution × Run
unfolding decide_by
resolve_decision ex flow_name step step_index context r =
    decide_by ex flow_name step step_index context step.decision_candidates ex.decision_callback r
