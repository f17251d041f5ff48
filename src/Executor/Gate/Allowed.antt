-- ===== src/Executor/Gate/Allowed.antt =====
-- What passing the safety gate says of a tool.
use chain_weaver.Common.{
  ℕ, String, Bool, false, Option, none, some, ◌≡◌, refl, inl, inr, arith, Bool-cases,
}
use chain_weaver.Value.{Context}
use chain_weaver.Tools.{History, Tool}
use chain_weaver.Contracts.Levels.{SideEffectLevel, side_effect_exceeds}
use chain_weaver.Executor.Types.{
  Error, ApprovalContext, ApprovalAnswer, approve, deny, decided, not_a_decision, callback_raised,
  Executor,
}
use chain_weaver.Executor.Gate.{
  redacted, answered, ask, below_ceiling, over_ceiling, evaluate_safety_gate,
}

-- What the callback is asked about a step's tool and its inputs.
abbrev pub approval_context : Executor → String → ℕ → Tool → Context → ApprovalContext
approval_context ex flow_name i tool inputs = record {
  flow_name = flow_name;
  step_index = i;
  tool_name = tool.name;
  inputs = redacted ex inputs;
  safety = tool.safety;
}

-- Why a tool may run on these inputs, after the calls `h`, as far as approval goes: it needs none; or
-- nobody is asked and safety is not strict; or the callback, asked there, approved of it.
pub data Consent (ex : Executor) (tool : Tool) (inputs : Context) (h : History) : Type 0 where
  not_required : tool.safety.requires_approval ≡ false → Consent ex tool inputs h
  advisory : ex.approval_callback ≡ none → ex.strict_safety ≡ false → Consent ex tool inputs h
  granted :
      (callback : History → ApprovalContext → ApprovalAnswer) (flow_name : String) (i : ℕ)
      → ex.approval_callback ≡ some callback
      → callback h (approval_context ex flow_name i tool inputs) ≡ decided approve
      → Consent ex tool inputs h

abbrev pub is_over_ceiling : Option SideEffectLevel → SideEffectLevel → Bool
is_over_ceiling none level = false
is_over_ceiling (some ceiling) level = side_effect_exceeds level ceiling

module _ (ex : Executor) (flow_name : String) (i : ℕ) (tool : Tool) (inputs : Context)
    (h : History) where
  answered-eq_none :
      (answer : ApprovalAnswer) → (answered tool.name i answer).0 ≡ none → answer ≡ decided approve
  unfolding answered
  answered-eq_none (decided approve) e = refl
  answered-eq_none (decided deny) e = ground arith
  answered-eq_none (not_a_decision reason) e = ground arith
  answered-eq_none (callback_raised reason) e = ground arith

  ask-Consent :
      (callback : Option (History → ApprovalContext → ApprovalAnswer))
      → ex.approval_callback ≡ callback
      → (ask ex flow_name i tool inputs h callback).0 ≡ none
      → Consent ex tool inputs h
  unfolding ask
  ask-Consent none unset e = elim (Bool-cases ex.strict_safety) [
    | inl strict ↦ ground (arith, e)
    | inr lax ↦ advisory unset lax
  ]
  ask-Consent (some callback) set e = granted callback flow_name i set (answered-eq_none _ e)

  below_ceiling-Consent :
      (over : Option Error)
      → (below_ceiling ex flow_name i tool inputs h over).0 ≡ none
      → Consent ex tool inputs h
  unfolding below_ceiling
  below_ceiling-Consent (some e) passed = ground arith
  below_ceiling-Consent none passed = elim (Bool-cases tool.safety.requires_approval) [
    | inl required ↦ ask-Consent ex.approval_callback refl (simp required at passed)
    | inr free ↦ not_required free
  ]

  -- A tool that passes the gate is approved of in one of the three ways.
  pub gate-Consent :
      (evaluate_safety_gate ex flow_name i tool inputs h).0 ≡ none → Consent ex tool inputs h
  unfolding evaluate_safety_gate
  gate-Consent e = below_ceiling-Consent (over_ceiling ex flow_name i tool inputs h) e

  pub gate-ceiling :
      (evaluate_safety_gate ex flow_name i tool inputs h).0 ≡ none
      → is_over_ceiling ex.max_side_effect_level tool.safety.side_effects ≡ false
  unfolding evaluate_safety_gate
  gate-ceiling e = ground arith
