-- ===== src/Executor/Step/Frame/Dry.antt =====
-- The dry run of a step: what it calls, and what its record says.
use chain_weaver.Common.{
  Bool, true, false, Option, none, some, List, [], ◌≡◌, ◌≢◌, refl, inl, inr, Bool-cases,
}
use chain_weaver.Value.{Context}
use chain_weaver.Tools.{Call, History, Outcome, returned, raised, Tool, run_dry}
use chain_weaver.Contracts.Levels.{only_reads}
use chain_weaver.Executor.Types.{
  Error, RetryNote, StepRecord, Executor, DryRunUnsupported, dry_skip, dry_abort,
}
use chain_weaver.Executor.Invoke.Calls.{AllAt, CanDryRun, run_dry-All}
use chain_weaver.Executor.Step.Frame.{
  Frame, make_record, dry_outcome, dry_unsupported, dry_writing, dry_run_step, has_dry_run,
}

-- A record of a step either failed, with an error and no outputs, or succeeded, with outputs.
pub data HasOutcome (rec : StepRecord) : Type 0 where
  fails :
      (e : Error) → rec.success ≡ false → rec.error ≡ some e → rec.outputs ≡ none → HasOutcome rec
  succeeds : (outputs : Context) → rec.success ≡ true → rec.outputs ≡ some outputs → HasOutcome rec

pub make_record-fails :
    (f : Frame) (inputs : Context) (e : Error) (skipped : Bool) (notes : List RetryNote)
    → HasOutcome (make_record f inputs none (some e) false skipped notes)
unfolding make_record
make_record-fails f inputs e skipped notes = fails e refl refl refl

pub make_record-succeeds :
    (f : Frame) (inputs outputs : Context) (e : Option Error) (skipped : Bool)
    (notes : List RetryNote)
    → HasOutcome (make_record f inputs (some outputs) e true skipped notes)
unfolding make_record
make_record-succeeds f inputs outputs e skipped notes = succeeds outputs refl refl

abbrev OptionHasOutcome : Option StepRecord → Type 0
OptionHasOutcome none = Unit
OptionHasOutcome (some rec) = HasOutcome rec

-- What a dry run hands back: a proper record if any, and a history of permitted calls.
pub record DryPost (Q : Call → History → Type 0) (result : Option StepRecord × History)
    : Type 0 where
  pub outcome : OptionHasOutcome result.0
  pub calls : AllAt Q result.1

module _ (Q : Call → History → Type 0) (ex : Executor) (tool : Tool) (f : Frame) (inputs : Context)
    (notes : List RetryNote) where
  dry_outcome-Post :
      (result : Outcome Context × History)
      → AllAt Q result.1
      → DryPost Q (dry_outcome f inputs notes result)
  unfolding dry_outcome
  dry_outcome-Post (returned outputs, h) all = record {
    outcome = make_record-succeeds f inputs outputs none false notes;
    calls = all;
  }
  dry_outcome-Post (raised e, h) all = record {
    outcome = make_record-fails f inputs _ false notes;
    calls = all;
  }

  dry_unsupported-HasOutcome :
      (policy : DryRunUnsupported) → HasOutcome (dry_unsupported policy f inputs notes)
  unfolding dry_unsupported
  dry_unsupported-HasOutcome dry_abort = make_record-fails f inputs _ false notes
  dry_unsupported-HasOutcome dry_skip = make_record-succeeds f inputs [] none true notes

  dry_writing-Post :
      (supported : Bool) (h : History)
      → CanDryRun Q tool inputs h
      → AllAt Q h
      → DryPost Q (dry_writing ex tool f inputs notes supported h)
  unfolding dry_writing
  dry_writing-Post true h can all =
      dry_outcome-Post (run_dry tool inputs h) (run_dry-All Q tool inputs h can all)
  dry_writing-Post false h can all = record {
    outcome = dry_unsupported-HasOutcome ex.dry_run_unsupported;
    calls = all;
  }

  pub dry_run_step-Post :
      (h : History)
      → CanDryRun Q tool inputs h
      → AllAt Q h
      → DryPost Q (dry_run_step ex tool f inputs notes h)
  unfolding dry_run_step
  dry_run_step-Post h can all = elim (Bool-cases (only_reads tool.safety.side_effects)) [
    | inl reads ↦ rw reads (record { outcome = tt; calls = all })
    | inr writes ↦ rw writes (dry_writing-Post (has_dry_run tool) h can all)
  ]

  dry_outcome-ne_none :
      (result : Outcome Context × History) → (dry_outcome f inputs notes result).0 ≢ none
  unfolding dry_outcome
  dry_outcome-ne_none (returned outputs, h) e = cc
  dry_outcome-ne_none (raised x, h) e = cc

  dry_writing-ne_none :
      (supported : Bool) (h : History) → (dry_writing ex tool f inputs notes supported h).0 ≢ none
  unfolding dry_writing
  dry_writing-ne_none true h e = dry_outcome-ne_none (run_dry tool inputs h) e
  dry_writing-ne_none false h e = cc

  -- Only a tool that reads is left to run for real.
  pub dry_run_step-eq_none :
      (h : History)
      → (dry_run_step ex tool f inputs notes h).0 ≡ none
      → only_reads tool.safety.side_effects ≡ true
  unfolding dry_run_step
  dry_run_step-eq_none h e = elim (Bool-cases (only_reads tool.safety.side_effects)) [
    | inl reads ↦ reads
    | inr writes ↦ absurd (dry_writing-ne_none (has_dry_run tool) h (rw writes at e))
  ]

  -- It leaves the calls as they were.
  pub dry_run_step-kept :
      (h : History)
      → (dry_run_step ex tool f inputs notes h).0 ≡ none
      → (dry_run_step ex tool f inputs notes h).1 ≡ h
  unfolding dry_run_step
  dry_run_step-kept h e = elim (Bool-cases (only_reads tool.safety.side_effects)) [
    | inl reads ↦ rw reads refl
    | inr writes ↦ absurd (dry_writing-ne_none (has_dry_run tool) h (rw writes at e))
  ]
