-- ===== src/Executor/Gate.antt =====
-- The safety gate and the input guardrail of chainweaver/executor.py.
pub mod Allowed
use mathlib.Core.Option.{get_or}
use chain_weaver.Common.{
  ℕ, String, Bool, true, false, Option, none, some, List, [], ◌∷◌, if◌then◌else◌,
}
use chain_weaver.Value.{Context}
use chain_weaver.Tools.{History, Exc, Outcome, returned, raised, Tool}
use chain_weaver.Contracts.Levels.{SideEffectLevel, side_effect_exceeds}
use chain_weaver.Executor.Types.{
  Error, safety_ceiling_error, approval_denied, guardrail_violation, ApprovalDecision, approve,
  deny, ApprovalRecord, ApprovalContext, GuardrailContext, ApprovalAnswer, decided, not_a_decision,
  callback_raised, Executor,
}

abbrev pub Gated : Type 0
Gated = Option Error × Option ApprovalRecord

module _ (tool_name : String) (step_index : ℕ) where
  -- The error's text, and the reason on the audit record.
  abbrev denied_as : String → String → Gated
  denied_as detail reason = (
    some (approval_denied tool_name step_index detail),
    some (record { decision = deny; reason = some reason }),
  )

  abbrev denied : String → Gated
  denied reason = denied_as reason reason

  answered : ApprovalAnswer → Gated
  answered (decided approve) = (none, some (record { decision = approve; reason = none }))
  answered (decided deny) = denied "approval callback returned DENY"
  answered (not_a_decision reason) = denied reason
  answered (callback_raised reason) = denied reason

-- `redact(inputs)` where there is a policy; the copy of the inputs otherwise.
abbrev pub redacted : Executor → Context → Context
redacted ex inputs = elim ex.redact [ none ↦ inputs | some policy ↦ policy inputs ]

module _ (ex : Executor) (flow_name : String) (step_index : ℕ) (tool : Tool) (inputs : Context)
    (h : History) where
  ask : Option (History → ApprovalContext → ApprovalAnswer) → Gated
  unfolding answered
  ask none =
      if ex.strict_safety
      then denied_as tool.name step_index
          "step requires approval but no approval_callback registered (strict_safety=True)"
          "no approval_callback registered (strict_safety=True)"
      else (none, none)
  ask (some callback) = answered tool.name step_index (
      callback h (record {
        flow_name = flow_name;
        step_index = step_index;
        tool_name = tool.name;
        inputs = redacted ex inputs;
        safety = tool.safety;
      }))

  over_ceiling : Option Error
  over_ceiling = elim ex.max_side_effect_level [
    | none ↦ none
    | some ceiling ↦
        if side_effect_exceeds tool.safety.side_effects ceiling
        then some (safety_ceiling_error tool.name tool.safety.side_effects ceiling)
        else none
  ]

  below_ceiling : Option Error → Gated
  unfolding ask
  below_ceiling (some e) = (some e, none)
  below_ceiling none =
      if tool.safety.requires_approval then ask ex.approval_callback else (none, none)

  -- `_evaluate_safety_gate`: the error that aborts the step, and the approval for the audit.
  unfoldable pub evaluate_safety_gate : Gated
  unfolding over_ceiling below_ceiling
  evaluate_safety_gate = below_ceiling over_ceiling

  guardrail_error : Outcome (Unit {0}) → Option Error
  guardrail_error (returned _) = none
  guardrail_error (raised e) = some (guardrail_violation tool.name step_index e)

  -- `_evaluate_input_guardrail`
  unfoldable pub evaluate_input_guardrail : Option Error
  unfolding guardrail_error
  evaluate_input_guardrail = elim ex.guardrail_callback [
    | none ↦ none
    | some callback ↦ guardrail_error (
        callback h (record {
          flow_name = flow_name;
          step_index = step_index;
          tool_name = tool.name;
          inputs = redacted ex inputs;
        }))
  ]
