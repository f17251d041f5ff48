-- ===== src/Executor/Step/OnError/Calls.antt =====
-- What `_apply_on_error` calls, and what its record says.
use chain_weaver.Common.{
  ℕ, String, true, false, Option, none, some, List, [], ◌∷◌, ◌++◌, ◌≡◌, refl, sym, subst, inl, inr,
  arith, Bool-cases,
}
use chain_weaver.Dict.{lookup}
use chain_weaver.Value.{Context}
use chain_weaver.Tools.{Call, History, Outcome, returned, raised, Tool, run}
use chain_weaver.Executor.Types.{
  Error, RetryNote, wrapped, ApprovalRecord, StepRecord, OnError, fail, skip, fallback, Executor,
}
use chain_weaver.Executor.Gate.{Gated, evaluate_safety_gate}
use chain_weaver.Executor.Invoke.Calls.{AllAt, CanRun, run-All}
use chain_weaver.Executor.Step.Permits.{Permits, MayCall}
use chain_weaver.Executor.Step.Frame.{Frame, dry_run_step}
use chain_weaver.Executor.Step.Frame.Dry.{
  HasOutcome, fails, succeeds, make_record-fails, make_record-succeeds, DryPost, dry_run_step-Post,
  dry_run_step-eq_none, dry_run_step-kept,
}
use chain_weaver.Executor.Step.OnError.{
  by_fallback, fallback_outcome, fallback_dry, fallback_gated, fallback_found, apply_on_error,
}

-- The record is proper, and each call of the history is permitted.
pub record CallsPost (Q : Call → History → Type 0) (result : StepRecord × History) : Type 0 where
  pub outcome : HasOutcome result.0
  pub calls : AllAt Q result.1

module _ (Q : Call → History → Type 0) (ex : Executor) (flow_name : String) (inputs : Context) where
  by_fallback-HasOutcome :
      (name : String) (approval : Option ApprovalRecord) {rec : StepRecord}
      → HasOutcome rec
      → HasOutcome (by_fallback ex flow_name inputs name approval rec)
  by_fallback-HasOutcome name approval (fails e s x o) = fails e s x o
  by_fallback-HasOutcome name approval (succeeds outputs s o) = succeeds outputs s o

  module _ (f : Frame) (name : String) (approval : Option ApprovalRecord)
      (notes : List RetryNote) where
    fallback_outcome-Post :
        (result : Outcome Context × History)
        → AllAt Q result.1
        → CallsPost Q (fallback_outcome ex flow_name inputs f name approval notes result)
    unfolding fallback_outcome
    fallback_outcome-Post (returned outputs, h) all = record {
      outcome =
          by_fallback-HasOutcome name approval
            (make_record-succeeds f inputs outputs none false notes);
      calls = all;
    }
    fallback_outcome-Post (raised e, h) all = record {
      outcome = by_fallback-HasOutcome name approval (make_record-fails f inputs _ false notes);
      calls = all;
    }

    fallback_dry-Post :
        (tool : Tool) (result : Option StepRecord × History)
        → DryPost Q result
        → (result.0 ≡ none → CanRun Q tool inputs result.1)
        → CallsPost Q (fallback_dry ex flow_name inputs f tool name approval notes result)
    unfolding fallback_dry
    fallback_dry-Post tool (some rec, h) d can = record {
      outcome = by_fallback-HasOutcome name approval d.outcome;
      calls = d.calls;
    }
    fallback_dry-Post tool (none, h) d can =
        fallback_outcome-Post (run tool inputs h) (run-All Q tool inputs h (can refl) d.calls)

  fallback_gated-Post :
      (f : Frame) (tool : Tool) (name : String) (notes : List RetryNote) (gated : Gated)
      (h : History)
      → (gated.0 ≡ none → MayCall ex Q tool inputs h)
      → AllAt Q h
      → CallsPost Q (fallback_gated ex flow_name inputs f tool name notes gated h)
  unfolding fallback_gated
  fallback_gated-Post f tool name notes (some e, approval) h may all = record {
    outcome = by_fallback-HasOutcome name approval (make_record-fails f inputs e false notes);
    calls = all;
  }
  fallback_gated-Post f tool name notes (none, approval) h may all = elim (Bool-cases ex.dry_run) [
    | inl dry ↦ simp dry (
        fallback_dry-Post f name approval notes tool (dry_run_step ex tool f inputs notes h)
          (dry_run_step-Post Q ex tool f inputs notes h (may refl).preview all)
          (λ left.
            subst (CanRun Q tool inputs) (sym (dry_run_step-kept Q ex tool f inputs notes h left))
              ((may refl).live (λ _. dry_run_step-eq_none Q ex tool f inputs notes h left))))
    | inr real ↦ simp real (
        fallback_outcome-Post f name approval notes (run tool inputs h)
          (run-All Q tool inputs h ((may refl).live (λ dry. ground arith)) all))
  ]

  module _ (permits : Permits ex Q) where
    pub permits→MayCall :
        (name : String) (tool : Tool) (i : ℕ) (h : History)
        → lookup name ex.tools ≡ some tool
        → (evaluate_safety_gate ex flow_name i tool inputs h).0 ≡ none
        → MayCall ex Q tool inputs h
    permits→MayCall name tool i h found passed = record {
      live = permits.live name tool flow_name i inputs h found passed;
      preview = permits.preview name tool flow_name i inputs h found passed;
    }

    fallback_found-Post :
        (f : Frame) (name : String) (notes : List RetryNote) (tool : Option Tool) (h : History)
        → lookup name ex.tools ≡ tool
        → AllAt Q h
        → CallsPost Q (fallback_found ex flow_name inputs f name notes tool h)
    unfolding fallback_found
    fallback_found-Post f name notes none h found all = record {
      outcome = by_fallback-HasOutcome name none (make_record-fails f inputs _ false notes);
      calls = all;
    }
    fallback_found-Post f name notes (some tool) h found all =
        fallback_gated-Post f tool name notes _ h (permits→MayCall name tool f.step_index h found)
          all

    pub apply_on_error-Post :
        (f : Frame) (on_error : OnError) (e : Error) (notes : List RetryNote) (h : History)
        → AllAt Q h
        → CallsPost Q (apply_on_error ex flow_name inputs f on_error e notes h)
    unfolding apply_on_error
    apply_on_error-Post f fail e notes h all = record {
      outcome = make_record-fails f inputs e false notes;
      calls = all;
    }
    apply_on_error-Post f skip e notes h all = record {
      outcome = make_record-succeeds f inputs [] (some e) true notes;
      calls = all;
    }
    apply_on_error-Post f (fallback name) e notes h all =
        fallback_found-Post f name (notes ++ wrapped e ∷ []) (lookup name ex.tools) h refl all
