-- ===== src/Executor/Invoke/Calls.antt =====
-- A property of calls is kept by the ways to invoke a tool, if the tool may be called.
use chain_weaver.Common.{
  ℕ, zero, suc, ◌+◌, Bool, true, false, Option, none, some, ◌≡◌, refl, sym, subst, inl, inr, arith,
  Bool-cases, ◌&&◌, [], ◌∷◌, ap, ◌∙◌,
}
use chain_weaver.Value.{Context}
use chain_weaver.Tools.{Call, History, Exc, Outcome, returned, raised, Tool, Callable, run, run_dry}
use chain_weaver.Executor.Types.{
  RetryNote, attempt_error, suppressed, RetryPolicy, Attempts, Retrying, Executor,
}
use chain_weaver.Executor.Invoke.{
  noted, attempt, invoke_retrying, invoke_tool, retry_disallowed_by_contract,
}
use chain_weaver.Executor.Invoke.Retry.{IsRetrying, retry_round}

-- Each call of a history, with those before it, has the property.
abbrev pub AllAt : (Call → History → Type 0) → History → Type 0
AllAt Q [] = Unit
AllAt Q (call ∷ h) = Q call h × AllAt Q h

-- From the history `h` on, nothing but this call has been made.
pub data Since (call : Call) (h : History) : History → Type 0 where
  at_once : Since call h h
  retried : {t : History} → Since call h t → Since call h (call ∷ t)

abbrev pub call_of : Tool → Bool → Context → Call
call_of tool dry validated = record { tool = tool.name; inputs = validated; dry = dry }

abbrev value_or : Context → Outcome Context → Context
value_or default (returned v) = v
value_or default (raised e) = default

module _ (Q : Call → History → Type 0) where
  -- From the history `h` on, the tool's function, or its dry-run function, may be called, any number of
  -- times, with what its schema makes of the inputs.
  abbrev pub CanCall : Bool → Tool → Context → History → Type 0
  CanCall dry tool inputs h =
      (validated : Context) (t : History)
      → tool.input_schema inputs ≡ returned validated
      → Since (call_of tool dry validated) h t
      → Q (call_of tool dry validated) t

  abbrev pub CanRun : Tool → Context → History → Type 0
  CanRun tool inputs h = CanCall false tool inputs h

  abbrev pub CanDryRun : Tool → Context → History → Type 0
  CanDryRun tool inputs h = CanCall true tool inputs h

  -- The history `t` is `h` and calls of the tool with what its schema makes of the inputs.
  abbrev Attempted : Tool → Context → History → History → Type 0
  Attempted tool inputs h t =
      AllAt Q t
      × ((validated : Context)
          → tool.input_schema inputs ≡ returned validated
          → Since (call_of tool false validated) h t)

  history-returned :
      (tool : Tool) (inputs : Context) (t : History) (v : Context)
      → tool.input_schema inputs ≡ returned v
      → (run tool inputs t).1 ≡ call_of tool false v ∷ t
  unfolding run
  history-returned tool inputs t v e = rw e refl

  history-raised :
      (tool : Tool) (inputs : Context) (t : History) (x : Exc)
      → tool.input_schema inputs ≡ raised x
      → (run tool inputs t).1 ≡ t
  unfolding run
  history-raised tool inputs t x e = rw e refl

  run-Attempted :
      (tool : Tool) (inputs : Context) (h t : History)
      → CanRun tool inputs h
      → Attempted tool inputs h t
      → Attempted tool inputs h (run tool inputs t).1
  run-Attempted tool inputs h t can (all, since) = by_input (tool.input_schema inputs) refl
    where
      by_input :
          (o : Outcome Context)
          → tool.input_schema inputs ≡ o
          → Attempted tool inputs h (run tool inputs t).1
      by_input (raised x) e =
          subst (Attempted tool inputs h) (sym (history-raised tool inputs t x e)) (all, since)
      by_input (returned v) e =
          subst (Attempted tool inputs h) (sym (history-returned tool inputs t v e)) (
            (can v t e (since v e), all),
            λ v' e'.
                subst (λ w. Since (call_of tool false v') h (call_of tool false w ∷ t))
                  (ap (value_or v) (sym e' ∙ e)) (retried (since v' e')),
          )

  pub run-All :
      (tool : Tool) (inputs : Context) (h : History)
      → CanRun tool inputs h
      → AllAt Q h
      → AllAt Q (run tool inputs h).1
  run-All tool inputs h can all = (run-Attempted tool inputs h h can (all, λ v e. at_once)).0

  pub run_dry-All :
      (tool : Tool) (inputs : Context) (h : History)
      → CanDryRun tool inputs h
      → AllAt Q h
      → AllAt Q (run_dry tool inputs h).1
  run_dry-All tool inputs h can all = by_cases tool.dry_run_fn (tool.input_schema inputs) refl refl
    where
      by_cases :
          (fn : Option Callable) (o : Outcome Context)
          → tool.dry_run_fn ≡ fn
          → tool.input_schema inputs ≡ o
          → AllAt Q (run_dry tool inputs h).1
      by_cases none o d e = unfold run_dry in rw d all
      by_cases (some fn) (returned validated) d e =
          unfold run_dry in rw (d, e) (can validated h e at_once, all)
      by_cases (some fn) (raised x) d e = unfold run_dry in rw (d, e) all

  noted-Attempted :
      (tool : Tool) (inputs : Context) (h : History) (note : Exc → RetryNote) (a : Attempts)
      (result : Outcome Context × History)
      → Attempted tool inputs h result.1
      → Attempted tool inputs h (noted note a result).1.calls
  unfolding noted
  noted-Attempted tool inputs h note a (returned outputs, t) all = all
  noted-Attempted tool inputs h note a (raised e, t) all = all

  attempt-Attempted :
      (tool : Tool) (inputs : Context) (h : History) (note : Exc → RetryNote) (a : Attempts)
      → CanRun tool inputs h
      → Attempted tool inputs h a.calls
      → Attempted tool inputs h (attempt tool inputs note a).1.calls
  unfolding attempt
  attempt-Attempted tool inputs h note a can all =
      noted-Attempted tool inputs h note a (run tool inputs a.calls)
        (run-Attempted tool inputs h a.calls can all)

  module _ (retrying : Retrying) (law : IsRetrying retrying) (retry : Exc → Bool) (tool : Tool)
      (inputs : Context) (h : History) (can : CanRun tool inputs h) where
    round-Attempted :
        (left : ℕ) (result : Outcome Context × Attempts)
        → Attempted tool inputs h result.1.calls
        → ((k : ℕ) (b : Attempts)
            → left ≡ suc k
            → Attempted tool inputs h b.calls
            → Attempted tool inputs h
                (retrying (suc k) retry (attempt tool inputs attempt_error) b).1.calls)
        → Attempted tool inputs h
            (retry_round retrying left retry (attempt tool inputs attempt_error) result).1.calls
    round-Attempted left (returned outputs, b) all ih = all
    round-Attempted zero (raised e, b) all ih = all
    round-Attempted (suc left) (raised e, b) all ih = elim (Bool-cases (retry e)) [
      | inl again ↦ rw again (ih left b refl all)
      | inr over ↦ rw over all
    ]

    retrying-Attempted :
        (left : ℕ) (a : Attempts)
        → Attempted tool inputs h a.calls
        → Attempted tool inputs h
            (retrying (suc left) retry (attempt tool inputs attempt_error) a).1.calls
    retrying-Attempted zero a all =
        rw (law.round zero retry (attempt tool inputs attempt_error) a) (
          round-Attempted zero _ (attempt-Attempted tool inputs h attempt_error a can all)
            (λ k b e all'. absurd (omega arith)))
    retrying-Attempted (suc left) a all =
        rw (law.round (suc left) retry (attempt tool inputs attempt_error) a) (
          round-Attempted (suc left) _ (attempt-Attempted tool inputs h attempt_error a can all)
            (λ k b e all'. rw (← pred-eq k left e) (retrying-Attempted left b all')))
      where
        pred-eq : (k left : ℕ) → suc left ≡ suc k → left ≡ k
        pred-eq k left e = omega arith

  pub invoke_tool-All :
      (ex : Executor) (tool : Tool) (inputs : Context) (policy : Option RetryPolicy) (a : Attempts)
      → IsRetrying ex.retrying
      → CanRun tool inputs a.calls
      → AllAt Q a.calls
      → AllAt Q (invoke_tool ex tool inputs policy a).1.calls
  unfolding invoke_tool invoke_retrying
  invoke_tool-All ex tool inputs none a law can all =
      (attempt-Attempted tool inputs a.calls attempt_error a can (all, λ v e. at_once)).0
  invoke_tool-All ex tool inputs (some p) a law can all =
      elim (Bool-cases (ex.strict_safety && retry_disallowed_by_contract tool)) [
        | inl once_only ↦
            rw once_only
              (attempt-Attempted tool inputs a.calls suppressed a can (all, λ v e. at_once)).0
        | inr may_retry ↦ rw may_retry (by_reference (ex.retryable p.retryable_errors))
      ]
    where
      add_one : p.max_retries + 1 ≡ suc p.max_retries
      add_one = omega arith

      by_reference :
          (retry : Outcome (Exc → Bool))
          → AllAt Q (invoke_retrying ex tool inputs p retry a).1.calls
      by_reference (raised e) = all
      by_reference (returned retry) =
          subst (λ n. AllAt Q (ex.retrying n retry (attempt tool inputs attempt_error) a).1.calls)
            (sym add_one)
            (retrying-Attempted ex.retrying law retry tool inputs a.calls can p.max_retries a
              (all, λ v e. at_once)).0
