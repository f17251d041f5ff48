-- ===== src/Executor/Resume/Cancel.antt =====
-- Cancelling a linear run and resuming it: the induction over the steps.
use chain_weaver.Common.{
  ℕ, suc, String, Bool, true, false, Option, none, some, List, [], ◌∷◌, ◌++◌, ◌≡◌, refl, ◌≢◌, sym,
  ap, subst, ◌∙◌, inl, inr, Bool-cases, ◌||◌, drop, length,
}
use chain_weaver.Dict.{lookup}
use chain_weaver.Value.{Context}
use chain_weaver.Executor.Types.{
  Result, ok, raise, StepRecord, FlowStep, Flow, collision_error, FlowOutcome, cancelled,
  flow_start, Run,
}
use chain_weaver.Executor.Invoke.Retry.{IsRetrying}
use chain_weaver.Executor.Step.Frame.{fire}
use chain_weaver.Executor.Result.{
  Job, Cancel, scoped, never, deadline_exceeded, token_cancelled, make_result, give_up, result_of,
  check_cancellation, after_context_schema, after_output_schema, finish_flow,
}
use chain_weaver.Executor.Linear.{
  Rest, unless_cancelled, run_steps, take_step, after_input_schema, execute_linear,
}
use chain_weaver.Executor.Linear.Next.{Ends, raises, failed_at, Next, ends, goes_on, take_step-Next}
use chain_weaver.Executor.Resume.Recovery.{
  drop_next, Resumable, Boundary, save-Boundary, left_state, resume-run_steps,
}

module _ (job : Job) (get_flow : String → Option Flow) (outer : ℕ) where
  give_up-Resumable :
      (whole : FlowOutcome × Run) (log : List StepRecord) (r : Run)
      → Resumable job get_flow outer whole (give_up job log r)
  unfolding give_up make_result
  give_up-Resumable whole log r = tt

  after_context_schema-Resumable :
      (whole : FlowOutcome × Run) (rec : Result (Option StepRecord)) (context : Context)
      (log : List StepRecord) (r : Run)
      → Resumable job get_flow outer whole (after_context_schema job rec context log r)
  unfolding after_context_schema make_result
  after_context_schema-Resumable whole (raise e) context log r = tt
  after_context_schema-Resumable whole (ok (some rec)) context log r = give_up-Resumable whole _ r
  after_context_schema-Resumable whole (ok none) context log r = tt

  after_output_schema-Resumable :
      (whole : FlowOutcome × Run) (rec : Result (Option StepRecord)) (context : Context)
      (log : List StepRecord) (r : Run)
      → Resumable job get_flow outer whole (after_output_schema job rec context log r)
  unfolding after_output_schema
  after_output_schema-Resumable whole (raise e) context log r = tt
  after_output_schema-Resumable whole (ok (some rec)) context log r = give_up-Resumable whole _ r
  after_output_schema-Resumable whole (ok none) context log r =
      after_context_schema-Resumable whole _ context log r

  Ends-Resumable :
      (whole : FlowOutcome × Run) (log : List StepRecord) (out : FlowOutcome) (r : Run)
      → Ends log out
      → Resumable job get_flow outer whole (out, r)
  Ends-Resumable whole log _ r (raises e why) = tt
  Ends-Resumable whole log _ r (failed_at result rec bad nothing split failed) = tt

  module _ (on : job.ex.checkpointer ≡ true) (live : job.ex.dry_run ≡ false)
      (has : get_flow job.flow.name ≡ some job.flow)
      (lax : job.flow.on_context_collision ≢ collision_error) (cancel : Cancel) where
    -- A run that is stopped at a boundary leaves what a resumed run needs.
    Boundary-Resumable :
        (i : ℕ) (deadline token : Bool) (context : Context) (log : List StepRecord) (r : Run)
        → Boundary job get_flow outer i context log r
        → Resumable job get_flow outer
            (run_steps job never i (drop i job.flow.steps) context log r)
            (
              cancelled i deadline token (result_of job false none log),
              (make_result job false none log r).1,
            )
    Boundary-Resumable i deadline token context log r (inl first) = inl first
    Boundary-Resumable i deadline token context log r (inr saved) =
        let left = left_state job get_flow outer log r in
        inr (record {
          context = context;
          log = log;
          state = r;
          passes = refl;
          left = left;
          resumes =
              resume-run_steps job get_flow outer i context log _ on has lax
                (ap (λ s. lookup job.trace_id s.snapshots) left ∙ saved);
        })

    unless_cancelled-Resumable :
        (i : ℕ) (context : Context) (log : List StepRecord) (r : Run) (go_on : FlowOutcome × Run)
        → Boundary job get_flow outer i context log r
        → Resumable job get_flow outer
            (run_steps job never i (drop i job.flow.steps) context log r)
            go_on
        → Resumable job get_flow outer
            (run_steps job never i (drop i job.flow.steps) context log r)
            (unless_cancelled job cancel (check_cancellation job cancel i log r) go_on)
    unfolding unless_cancelled check_cancellation
    unless_cancelled-Resumable i context log r go_on boundary after =
        elim (Bool-cases (deadline_exceeded cancel i || token_cancelled cancel i)) [
          | inl stop ↦ simp stop (
              unfold make_result in
              Boundary-Resumable i (deadline_exceeded cancel i) (token_cancelled cancel i) context
                log r boundary)
          | inr go ↦ simp go after
        ]

    step-Resumable :
        (i : ℕ) (log : List StepRecord) (f : Rest → FlowOutcome × Run) (whole rest : Rest)
        → Next job i log f
        → ((context : Context) (log' : List StepRecord) (r : Run)
            → Boundary job get_flow outer (suc i) context log' r
            → Resumable job get_flow outer (whole context log' r) (rest context log' r))
        → Resumable job get_flow outer (f whole) (f rest)
    step-Resumable i log f whole rest (ends out why same) ih =
        subst (λ t. Resumable job get_flow outer (f whole) t) (sym (same rest))
          (Ends-Resumable (f whole) log out.0 out.1 why)
    step-Resumable i log f whole rest (goes_on context rec r good same) ih =
        subst {A = (FlowOutcome × Run) × (FlowOutcome × Run)}
          (λ t. Resumable job get_flow outer t.0 t.1) (λ j. (sym (same whole) j, sym (same rest) j))
          (ih context (log ++ rec ∷ []) _
            (inr (save-Boundary job get_flow outer context (log ++ rec ∷ []) (suc i) r on live)))

    run_steps-Resumable :
        (law : IsRetrying job.ex.retrying) (i : ℕ) (steps : List FlowStep) (context : Context)
        (log : List StepRecord) (r : Run)
        → drop i job.flow.steps ≡ steps
        → Boundary job get_flow outer i context log r
        → Resumable job get_flow outer
            (run_steps job never i steps context log r)
            (run_steps job cancel i steps context log r)
    unfolding run_steps finish_flow unless_cancelled check_cancellation
    run_steps-Resumable law i [] context log r here boundary =
        after_output_schema-Resumable _ _ context log r
    run_steps-Resumable law i (step ∷ steps) context log r here boundary =
        subst
          (λ s. Resumable job get_flow outer (run_steps job never i s context log r) (
            unless_cancelled job cancel (check_cancellation job cancel i log r)
              (take_step job i (run_steps job cancel (suc i) steps) step context log r)))
          here
          (unless_cancelled-Resumable i context log r _ boundary (
            subst
              (λ s.
                Resumable job get_flow outer (run_steps job never i s context log r)
                  (take_step job i (run_steps job cancel (suc i) steps) step context log r))
              (sym here)
              (step-Resumable i log _ (run_steps job never (suc i) steps)
                (run_steps job cancel (suc i) steps) (take_step-Next job i step context log r law)
                (λ context' log' r' boundary'.
                  run_steps-Resumable law (suc i) steps context' log' r'
                    (drop_next i job.flow.steps step steps here) boundary'))))

    after_input_schema-Resumable :
        (law : IsRetrying job.ex.retrying) (rec : Result (Option StepRecord)) (r : Run)
        → Resumable job get_flow outer
            (after_input_schema job never rec r)
            (after_input_schema job cancel rec r)
    unfolding after_input_schema
    after_input_schema-Resumable law (raise e) r = tt
    after_input_schema-Resumable law (ok (some rec)) r = give_up-Resumable _ (rec ∷ []) r
    after_input_schema-Resumable law (ok none) r =
        run_steps-Resumable law 0 job.flow.steps _ [] r refl (inl refl)

    -- Cancelling loses nothing: a linear run that is cancelled before its step `n`, with `n` not 0,
    -- and then resumed does what the uninterrupted run does from that boundary on, but that it counts
    -- its decisions on from the caller's count and not from those of the run. The executor has
    -- a checkpointer, the run is not dry, the registry still has the flow, and the flow does not
    -- ask for an error on a key collision; the retry library keeps its documented contract.
    pub execute_linear-Resumable :
        IsRetrying job.ex.retrying
        → (r : Run)
        → Resumable job get_flow outer (execute_linear job never r) (execute_linear job cancel r)
    unfolding execute_linear
    execute_linear-Resumable law r =
        after_input_schema-Resumable law _
          (fire (flow_start job.flow.name (length job.flow.steps)) (scoped r))
