-- ===== src/Executor/Step/Permits.antt =====
-- Which tools an executor may call: those that its tool table holds and its safety gate passes, in
-- a dry run only by their preview unless they read only.
use chain_weaver.Common.{ℕ, String, true, none, some, ◌≡◌}
use chain_weaver.Dict.{lookup}
use chain_weaver.Value.{Context}
use chain_weaver.Tools.{Call, History, Tool}
use chain_weaver.Contracts.Levels.{only_reads}
use chain_weaver.Executor.Types.{Executor}
use chain_weaver.Executor.Gate.{evaluate_safety_gate}
use chain_weaver.Executor.Invoke.Calls.{CanRun, CanDryRun}

-- The property `Q` holds of each call that the executor may make.
pub record Permits (ex : Executor) (Q : Call → History → Type 0) : Type 0 where
  pub live :
      (name : String) (tool : Tool) (flow_name : String) (i : ℕ) (inputs : Context) (h : History)
      → lookup name ex.tools ≡ some tool
      → (evaluate_safety_gate ex flow_name i tool inputs h).0 ≡ none
      → (ex.dry_run ≡ true → only_reads tool.safety.side_effects ≡ true)
      → CanRun Q tool inputs h
  pub preview :
      (name : String) (tool : Tool) (flow_name : String) (i : ℕ) (inputs : Context) (h : History)
      → lookup name ex.tools ≡ some tool
      → (evaluate_safety_gate ex flow_name i tool inputs h).0 ≡ none
      → CanDryRun Q tool inputs h

-- What is known of a tool once it is looked up and has passed the gate.
pub record MayCall (ex : Executor) (Q : Call → History → Type 0) (tool : Tool) (inputs : Context)
    (h : History) : Type 0 where
  pub live :
      (ex.dry_run ≡ true → only_reads tool.safety.side_effects ≡ true) → CanRun Q tool inputs h
  pub preview : CanDryRun Q tool inputs h
