-- ===== src/Executor/Safety.antt =====
-- What the safety checks of chainweaver/executor.py promise of every tool call of a run.
use chain_weaver.Common.{ℕ, String, Bool, true, false, none, some, ◌≡◌, refl, arith}
use chain_weaver.Dict.{lookup}
use chain_weaver.Value.{Context}
use chain_weaver.Tools.{Call, History, returned, Tool}
use chain_weaver.Contracts.Levels.{only_reads}
use chain_weaver.Executor.Types.{Executor}
use chain_weaver.Executor.Gate.{evaluate_safety_gate}
use chain_weaver.Executor.Gate.Allowed.{Consent, is_over_ceiling, gate-Consent, gate-ceiling}
use chain_weaver.Executor.Invoke.Calls.{Since, CanCall}
use chain_weaver.Executor.Step.Permits.{Permits}

-- A call after the calls `earlier` is allowed by a tool of the table, which has the call's name, and
-- by inputs that the tool's schema turns into those of the call. The tool's side effects are not above
-- the ceiling, and there was consent for these inputs at a time since which nothing but this call has
-- been made: its earlier attempts. In a dry run the tool's own function is called only if the tool
-- reads at most.
pub record IsAllowed (ex : Executor) (call : Call) (earlier : History) : Type 0 where
  pub key : String
  pub tool : Tool
  pub inputs : Context
  pub asked : History
  pub registered : lookup key ex.tools ≡ some tool
  pub named : tool.name ≡ call.tool
  pub accepted : tool.input_schema inputs ≡ returned call.inputs
  pub ceiling : is_over_ceiling ex.max_side_effect_level tool.safety.side_effects ≡ false
  pub consent : Consent ex tool inputs asked
  pub since : Since call asked earlier
  pub previewed : ex.dry_run ≡ true → call.dry ≡ false → only_reads tool.safety.side_effects ≡ true

module _ (ex : Executor) where
  called-IsAllowed :
      (dry : Bool) (name : String) (tool : Tool) (flow_name : String) (i : ℕ) (inputs : Context)
      (h : History)
      → lookup name ex.tools ≡ some tool
      → (evaluate_safety_gate ex flow_name i tool inputs h).0 ≡ none
      → (ex.dry_run ≡ true → dry ≡ false → only_reads tool.safety.side_effects ≡ true)
      → CanCall (IsAllowed ex) dry tool inputs h
  called-IsAllowed dry name tool flow_name i inputs h found passed reads validated t accepts since =
      record {
        key = name;
        tool = tool;
        inputs = inputs;
        asked = h;
        registered = found;
        named = refl;
        accepted = accepts;
        ceiling = gate-ceiling ex flow_name i tool inputs h passed;
        consent = gate-Consent ex flow_name i tool inputs h passed;
        since = since;
        previewed = reads;
      }

  pub Permits-IsAllowed : Permits ex (IsAllowed ex)
  Permits-IsAllowed = record {
    live = λ name tool flow_name i inputs h found passed reads.
        called-IsAllowed false name tool flow_name i inputs h found passed (λ dry own. reads dry);
    preview = λ name tool flow_name i inputs h found passed.
        called-IsAllowed true name tool flow_name i inputs h found passed
          (λ dry own. ground (arith, own));
  }
