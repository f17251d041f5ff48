-- ===== src/Executor/Step/OnError.antt =====
-- `_apply_on_error` of chainweaver/executor.py.
pub mod Calls
use chain_weaver.Common.{
  ℕ, String, Bool, true, false, Option, none, some, List, [], ◌∷◌, ◌++◌, if◌then◌else◌,
}
use chain_weaver.Dict.{lookup}
use chain_weaver.Value.{Context}
use chain_weaver.Tools.{History, Outcome, returned, raised, Tool, run}
use chain_weaver.Executor.Types.{
  Error, tool_not_found, RetryNote, wrapped, ApprovalRecord, StepRecord, OnError, fail, skip,
  fallback, Executor,
}
use chain_weaver.Executor.Gate.{Gated, evaluate_safety_gate}
use chain_weaver.Executor.Invoke.{wrap_tool_exception}
use chain_weaver.Executor.Step.Frame.{Frame, make_record, failed, succeeded, dry_run_step}

abbrev or_else : Option ApprovalRecord → Option ApprovalRecord → Option ApprovalRecord
or_else none b = b
or_else (some a) b = some a

module _ (ex : Executor) (flow_name : String) (inputs : Context) where
  -- A record of the fallback path: its approval takes precedence over the primary gate's.
  abbrev by_fallback : String → Option ApprovalRecord → StepRecord → StepRecord
  by_fallback name approval rec = record rec {
    fallback_used = true;
    fallback_tool_name = some name;
    approval = or_else approval rec.approval;
  }

  fallback_outcome :
      Frame
      → String
      → Option ApprovalRecord
      → List RetryNote
      → Outcome Context × History
      → StepRecord × History
  fallback_outcome f name approval notes (returned outputs, h) =
      (by_fallback name approval (succeeded f inputs outputs notes), h)
  fallback_outcome f name approval notes (raised e, h) = (
    by_fallback name approval (failed f inputs (wrap_tool_exception name f.step_index e) notes),
    h,
  )

  fallback_dry :
      Frame
      → Tool
      → String
      → Option ApprovalRecord
      → List RetryNote
      → Option StepRecord × History
      → StepRecord × History
  fallback_dry f tool name approval notes (some rec, h) = (by_fallback name approval rec, h)
  fallback_dry f tool name approval notes (none, h) =
      fallback_outcome f name approval notes (run tool inputs h)

  fallback_gated : Frame → Tool → String → List RetryNote → Gated → History → StepRecord × History
  fallback_gated f tool name notes (some e, approval) h =
      (by_fallback name approval (failed f inputs e notes), h)
  fallback_gated f tool name notes (none, approval) h =
      let dry = dry_run_step ex tool f inputs notes h in
      if ex.dry_run
      then fallback_dry f tool name approval notes dry
      else fallback_outcome f name approval notes (run tool inputs h)

  fallback_found : Frame → String → List RetryNote → Option Tool → History → StepRecord × History
  fallback_found f name notes none h =
      (by_fallback name none (failed f inputs (tool_not_found name) notes), h)
  fallback_found f name notes (some tool) h =
      fallback_gated f tool name notes
        (evaluate_safety_gate ex flow_name f.step_index tool inputs h) h

  unfoldable pub apply_on_error :
      Frame → OnError → Error → List RetryNote → History → StepRecord × History
  unfolding fallback_found fallback_gated fallback_dry fallback_outcome make_record
  apply_on_error f fail e notes h = (failed f inputs e notes, h)
  apply_on_error f skip e notes h = (make_record f inputs (some []) (some e) true true notes, h)
  apply_on_error f (fallback name) e notes h =
      fallback_found f name (notes ++ wrapped e ∷ []) (lookup name ex.tools) h
