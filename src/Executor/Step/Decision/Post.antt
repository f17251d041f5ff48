-- ===== src/Executor/Step/Decision/Post.antt =====
-- What `_resolve_decision` changes: it calls no tool and saves nothing, and a failed decision fires
-- the end of its step.
use chain_weaver.Common.{
  ℕ, suc, String, false, Option, none, some, List, [], ◌∷◌, ◌≡◌, refl, inl, inr, Bool-cases,
  contains, ltb,
}
use chain_weaver.Value.{Context}
use chain_weaver.Tools.{History, Outcome, returned, raised}
use chain_weaver.Executor.Types.{
  Error, decision_budget_exceeded, Result, ok, raise, FlowStep, step_end, Run, Executor,
  DecisionPolicy, DecisionAnswer, DecisionContext, OnTimeout, timeout_error, timeout_default,
}
use chain_weaver.Executor.Step.Frame.Dry.{HasOutcome, make_record-fails}
use chain_weaver.Executor.Step.Decision.{
  Resolution, run_tool, step_failed, plain_frame, consult, decide_by, decision_failed, chosen_of,
  timed_out_by, answer_of, settle, resolve_decision, is_over, budget_of,
}

abbrev pub SameCalls : Run → Run → Type 0
SameCalls r r' = (r'.calls ≡ r.calls) × (r'.snapshots ≡ r.snapshots)

-- The one error that a decision point raises.
abbrev pub IsBudgetError : Error → Type 0
IsBudgetError e = (name : String) × (budget : ℕ) × (e ≡ decision_budget_exceeded name budget)

abbrev pub DecisionPost : Run → Result Resolution × Run → Type 0
DecisionPost r (raise e, r') = SameCalls r r' × (r'.events ≡ r.events) × IsBudgetError e
DecisionPost r (ok (run_tool name decision), r') = SameCalls r r' × (r'.events ≡ r.events)
DecisionPost r (ok (step_failed rec), r') =
    SameCalls r r' × (r'.events ≡ step_end rec ∷ r.events) × HasOutcome rec

abbrev Proper : Resolution → Type 0
Proper (run_tool name decision) = Unit
Proper (step_failed rec) = HasOutcome rec

module _ (ex : Executor) (flow_name : String) (i : ℕ) (context : Context) (default : String)
    (candidates : List String) where
  decision_failed-Proper :
      (e : Error) → Proper (decision_failed ex flow_name i context default candidates e)
  unfolding decision_failed
  decision_failed-Proper e =
      make_record-fails (plain_frame ex flow_name i context default candidates) [] e false []

  chosen_of-Proper :
      (o : Outcome String) → Proper (chosen_of ex flow_name i context default candidates o)
  unfolding chosen_of
  chosen_of-Proper (raised e) = decision_failed-Proper _
  chosen_of-Proper (returned chosen) = elim (Bool-cases (contains chosen candidates)) [
    | inl known ↦ rw known tt
    | inr unknown ↦ rw unknown (decision_failed-Proper _)
  ]

  timed_out_by-Proper :
      (on : OnTimeout) → Proper (timed_out_by ex flow_name i context default candidates on)
  unfolding timed_out_by
  timed_out_by-Proper timeout_error = decision_failed-Proper _
  timed_out_by-Proper timeout_default = tt

  answer_of-Proper :
      (policy : Option DecisionPolicy) (answer : DecisionAnswer)
      → Proper (answer_of ex flow_name i context default candidates policy answer)
  answer_of-Proper none answer = unfold answer_of in chosen_of-Proper answer.chosen
  answer_of-Proper (some policy) answer = by_limit policy.timeout_s refl
    where
      by_limit :
          (limit : Option ℕ)
          → policy.timeout_s ≡ limit
          → Proper (answer_of ex flow_name i context default candidates (some policy) answer)
      by_limit none e = unfold answer_of in rw e (chosen_of-Proper answer.chosen)
      by_limit (some limit) e = elim (Bool-cases (ltb limit answer.duration)) [
        | inl late ↦ unfold answer_of in rw (e, late) (timed_out_by-Proper policy.on_timeout)
        | inr in_time ↦ unfold answer_of in rw (e, in_time) (chosen_of-Proper answer.chosen)
      ]

settle-Post : (res : Resolution) (r : Run) → Proper res → DecisionPost r (settle res r)
unfolding settle
settle-Post (run_tool name decision) r p = ((refl, refl), refl)
settle-Post (step_failed rec) r p = ((refl, refl), refl, p)

consult-Post :
    (ex : Executor) (flow_name : String) (step : FlowStep) (i : ℕ) (context : Context)
    (candidates : List String) (callback : History → DecisionContext → DecisionAnswer) (r : Run)
    → DecisionPost r (consult ex flow_name step i context candidates callback r)
unfolding consult
consult-Post ex flow_name step i context candidates callback r =
    elim (Bool-cases (is_over (budget_of ex.decision_policy) (suc r.decision_count))) [
      | inl over ↦ simp over ((refl, refl), refl, (flow_name, _, refl))
      | inr within ↦ simp within (
          settle-Post _ (record r { decision_count = suc r.decision_count })
            (answer_of-Proper ex flow_name i context step.tool_name candidates ex.decision_policy
              _))
    ]

decide_by-Post :
    (ex : Executor) (flow_name : String) (step : FlowStep) (i : ℕ) (context : Context)
    (c : Option (List String)) (d : Option (History → DecisionContext → DecisionAnswer)) (r : Run)
    → DecisionPost r (decide_by ex flow_name step i context c d r)
unfolding decide_by
decide_by-Post ex flow_name step i context none d r = ((refl, refl), refl)
decide_by-Post ex flow_name step i context (some candidates) none r = ((refl, refl), refl)
decide_by-Post ex flow_name step i context (some candidates) (some callback) r =
    consult-Post ex flow_name step i context candidates callback r

pub resolve_decision-Post :
    (ex : Executor) (flow_name : String) (step : FlowStep) (i : ℕ) (context : Context) (r : Run)
    → DecisionPost r (resolve_decision ex flow_name step i context r)
unfolding resolve_decision
resolve_decision-Post ex flow_name step i context r =
    decide_by-Post ex flow_name step i context step.decision_candidates ex.decision_callback r
