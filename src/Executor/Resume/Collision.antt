-- ===== src/Executor/Resume/Collision.antt =====
-- Where the resumed loop of chainweaver/executor.py parts from the uninterrupted one.
use chain_weaver.Common.{
  ℕ, suc, String, true, Option, some, List, [], ◌∷◌, ◌++◌, ◌≡◌, refl, ap, ◌∙◌,
}
use chain_weaver.Dict.{update}
use chain_weaver.Value.{Context}
use chain_weaver.Executor.Types.{
  context_key_collision, ok, raise, StepRecord, FlowStep, collision_error, aborted, Run,
}
use chain_weaver.Executor.Merge.{
  apply_output_mapping, collisions, unless_colliding, merge_projected, merge_after,
  merge_step_outputs,
}
use chain_weaver.Executor.Result.{Job, never, check_cancellation, save_linear_snapshot}
use chain_weaver.Executor.Step.Body.{execute_step}
use chain_weaver.Executor.Linear.{
  unless_cancelled, run_steps, take_step, after_merge, after_outputs, after_step,
}
use chain_weaver.Executor.Resume.{after_mapping, resume_outputs, resume_after, resume_steps}

module _ (name : String) (i : ℕ) (context outputs projected : Context)
    (mapping : Option (List (String × String))) (key : String) (keys : List String)
    (maps : apply_output_mapping name i outputs mapping ≡ ok projected)
    (shared : collisions context projected ≡ key ∷ keys) where
  merge-refused :
      merge_step_outputs collision_error name i context outputs mapping
      ≡ raise (context_key_collision name i (key ∷ keys))
  unfolding merge_step_outputs merge_after merge_projected unless_colliding
  merge-refused =
      ap (merge_after collision_error name i context) maps
      ∙ ap (unless_colliding name i context projected) shared

module _ (job : Job) (i : ℕ) (step : FlowStep) (steps : List FlowStep) (context : Context)
    (log : List StepRecord) (rec : StepRecord) (r r' : Run) (outputs projected : Context)
    (key : String) (keys : List String) (strict : job.flow.on_context_collision ≡ collision_error)
    (runs : execute_step job.ex job.flow.name i step context r ≡ (ok rec, r'))
    (good : rec.success ≡ true) (out : rec.outputs ≡ some outputs)
    (maps : apply_output_mapping step.tool_name i outputs step.output_mapping ≡ ok projected)
    (shared : collisions context projected ≡ key ∷ keys) where
  run-aborts :
      run_steps job never i (step ∷ steps) context log r
      ≡ (aborted (context_key_collision step.tool_name i (key ∷ keys)), r')
  unfolding run_steps take_step unless_cancelled check_cancellation after_step after_outputs
      after_merge
  run-aborts =
      ap (after_step job i (run_steps job never (suc i) steps) step context log) runs
      ∙ simp
          (
            good,
            out,
            strict,
            merge-refused step.tool_name i context outputs projected step.output_mapping key keys
                maps shared,
          )
          refl

  resume-goes_on :
      resume_steps job i (step ∷ steps) context log r
      ≡ resume_steps job
          (suc i)
          steps
          (update context projected)
          (log ++ rec ∷ [])
          (save_linear_snapshot job (update context projected) (log ++ rec ∷ []) (suc i) r')
  unfolding resume_steps resume_after resume_outputs after_mapping
  resume-goes_on =
      ap (resume_after job i (resume_steps job (suc i) steps) step context log) runs
      ∙ simp (good, out, maps) refl

  -- Where a step succeeds and its projected outputs share a key with the context, in a flow that asks
  -- for an error on a collision, the loop of an uninterrupted run ends with that error, and the loop
  -- of a resumed run, from the same step, context, log and state, overwrites the context, saves
  -- a checkpoint and runs the steps that are left.
  pub resume-collides :
      (run_steps job never i (step ∷ steps) context log r
        ≡ (aborted (context_key_collision step.tool_name i (key ∷ keys)), r'))
      × (resume_steps job i (step ∷ steps) context log r
          ≡ resume_steps job
              (suc i)
              steps
              (update context projected)
              (log ++ rec ∷ [])
              (save_linear_snapshot job (update context projected) (log ++ rec ∷ []) (suc i) r'))
  resume-collides = (run-aborts, resume-goes_on)
