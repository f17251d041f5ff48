-- ===== src/Executor/Invoke/Retry.antt =====
-- The retry loop: what tenacity documents of it, and what follows for `_invoke_tool`.
use chain_weaver.Common.{
  ℕ, zero, suc, ◌+◌, ◌≤◌, Bool, true, false, Option, none, some, List, [], ◌∷◌, ◌≡◌, refl, sym,
  subst, inl, inr, arith, length, length-append, Bool-cases, ◌&&◌, if◌then◌else◌,
}
use chain_weaver.Value.{Context}
use chain_weaver.Tools.{Exc, Outcome, returned, raised, Tool, run, Call}
use chain_weaver.Executor.Types.{
  RetryNote, attempt_error, suppressed, RetryPolicy, Attempts, Retrying, Executor,
}
use chain_weaver.Executor.Invoke.{
  noted, attempt, invoke_retrying, invoke_tool, retry_disallowed_by_contract,
}

-- One round of `Retrying(stop=stop_after_attempt(n), retry=retry_if_exception_type(...),
-- reraise=True)` with `left` further attempts: a value is returned, an exception that the test
-- rejects or that meets no further attempt is raised again, and any other starts the next round.
abbrev pub retry_round :
    Retrying
    → ℕ
    → (Exc → Bool)
    → (Attempts → Outcome Context × Attempts)
    → Outcome Context × Attempts
    → Outcome Context × Attempts
retry_round retrying left retry g (returned outputs, a) = (returned outputs, a)
retry_round retrying zero retry g (raised e, a) = (raised e, a)
retry_round retrying (suc left) retry g (raised e, a) =
    if retry e then retrying (suc left) retry g a else (raised e, a)

pub record IsRetrying (retrying : Retrying) : Type 0 where
  pub round :
      (left : ℕ) (retry : Exc → Bool) (g : Attempts → Outcome Context × Attempts) (a : Attempts)
      → retrying (suc left) retry g a ≡ retry_round retrying left retry g (g a)

-- A loop that has the documented behaviour, by recursion on the further attempts.
documented_from :
    ℕ
    → (Exc → Bool)
    → (Attempts → Outcome Context × Attempts)
    → Attempts
    → Outcome Context × Attempts
documented_from zero retry g a = g a
documented_from (suc left) retry g a = elim (g a).0 [
  | returned outputs ↦ (returned outputs, (g a).1)
  | raised e ↦ elim (retry e) [
    | true ↦ documented_from left retry g (g a).1
    | false ↦ (raised e, (g a).1)
  ]
]

unfoldable pub documented : Retrying
unfolding documented_from
documented zero retry g a = g a
documented (suc left) retry g a = documented_from left retry g a

pub documented-IsRetrying : IsRetrying documented
unfolding documented
documented-IsRetrying = record { round = λ left retry g a. by_cases left retry g a }
  where
    by_cases :
        (left : ℕ) (retry : Exc → Bool) (g : Attempts → Outcome Context × Attempts) (a : Attempts)
        → documented (suc left) retry g a ≡ retry_round documented left retry g (g a)
    by_cases zero retry g a = ground arith
    by_cases (suc left) retry g a = ground arith

-- One for a value, none for an exception.
abbrev extra : Outcome Context → ℕ
extra (returned outputs) = 1
extra (raised e) = 0

-- From the attempts `a`, at most `most` more are made; each of them that raised has left one note,
-- and each has called the tool's function at most once.
pub record Counts (a : Attempts) (most : ℕ) (result : Outcome Context × Attempts) : Type 0 where
  pub bound : result.1.count ≤ a.count + most
  pub tally : result.1.count + length a.errors ≡ length result.1.errors + a.count + extra result.0
  pub reached : length result.1.calls + a.count ≤ length a.calls + result.1.count

length-run :
    (tool : Tool) (inputs : Context) (h : List Call) → length (run tool inputs h).1 ≤ length h + 1
unfolding run
length-run tool inputs h = ground arith

noted-Counts :
    (note : Exc → RetryNote) (a : Attempts) (result : Outcome Context × List Call)
    → length result.1 ≤ length a.calls + 1
    → Counts a 1 (noted note a result)
unfolding noted
noted-Counts note a (returned outputs, h) le = record {
  bound = omega arith;
  tally = omega arith;
  reached = omega arith;
}
noted-Counts note a (raised e, h) le = record {
  bound = omega arith;
  tally = omega (arith, length-append a.errors (note e ∷ []));
  reached = omega arith;
}

attempt-Counts :
    (tool : Tool) (inputs : Context) (note : Exc → RetryNote) (a : Attempts)
    → Counts a 1 (attempt tool inputs note a)
unfolding attempt
attempt-Counts tool inputs note a =
    noted-Counts note a (run tool inputs a.calls) (length-run tool inputs a.calls)

-- The attempts after one that raised are counted with it.
Counts-trans :
    {a a' : Attempts} {e : Exc} (most : ℕ) (result : Outcome Context × Attempts)
    → Counts a 1 (raised e, a')
    → Counts a' most result
    → Counts a (suc most) result
Counts-trans most result c d = record {
  bound = omega arith;
  tally = omega arith;
  reached = omega arith;
}

Counts-more :
    {a : Attempts} (most : ℕ) (result : Outcome Context × Attempts)
    → Counts a 1 result
    → Counts a (suc most) result
Counts-more most result c = record { bound = omega arith; tally = c.tally; reached = c.reached }

module _ (retrying : Retrying) (law : IsRetrying retrying) (retry : Exc → Bool) (tool : Tool)
    (inputs : Context) where
  abbrev once : Attempts → Outcome Context × Attempts
  once = attempt tool inputs attempt_error

  -- A round, given what the loop does with one attempt less.
  round-Counts :
      (left : ℕ) (a : Attempts) (result : Outcome Context × Attempts)
      → Counts a 1 result
      → ((k : ℕ) (b : Attempts) → left ≡ suc k → Counts b (suc k) (retrying (suc k) retry once b))
      → Counts a (suc left) (retry_round retrying left retry once result)
  round-Counts left a (returned outputs, b) c ih = Counts-more left _ c
  round-Counts zero a (raised e, b) c ih = c
  round-Counts (suc left) a (raised e, b) c ih = elim (Bool-cases (retry e)) [
    | inl again ↦ rw again (Counts-trans (suc left) _ c (ih left b refl))
    | inr over ↦ rw over (Counts-more (suc left) _ c)
  ]

  retrying-Counts :
      (left : ℕ) (a : Attempts) → Counts a (suc left) (retrying (suc left) retry once a)
  retrying-Counts zero a = rw (law.round zero retry once a) (
      round-Counts zero a (once a) (attempt-Counts tool inputs attempt_error a)
        (λ k b e. absurd (omega arith)))
  retrying-Counts (suc left) a = rw (law.round (suc left) retry once a) (
      round-Counts (suc left) a (once a) (attempt-Counts tool inputs attempt_error a)
        (λ k b e. rw (← pred-eq k left e) (retrying-Counts left b)))
    where
      pred-eq : (k left : ℕ) → suc left ≡ suc k → left ≡ k
      pred-eq k left e = omega arith

-- The references name exception classes.
abbrev pub Resolves : Outcome (Exc → Bool) → Type 0
Resolves (raised e) = ⊥
Resolves (returned retry) = Unit

-- The attempts that the policy and the tool's contract allow.
abbrev pub most_attempts : Executor → Tool → Option RetryPolicy → ℕ
most_attempts ex tool none = 1
most_attempts ex tool (some policy) =
    if ex.strict_safety && retry_disallowed_by_contract tool then 1 else policy.max_retries + 1

-- `_invoke_tool` makes at most the attempts allowed further to those made, leaves one note for each
-- that raised, and calls the tool's function at most once for each; if the retry library keeps its
-- documented contract and the references of the policy given, if any, resolve.
pub invoke_tool-Counts :
    (ex : Executor) (tool : Tool) (inputs : Context) (policy : Option RetryPolicy) (a : Attempts)
    → IsRetrying ex.retrying
    → ((p : RetryPolicy) → policy ≡ some p → Resolves (ex.retryable p.retryable_errors))
    → Counts a (most_attempts ex tool policy) (invoke_tool ex tool inputs policy a)
unfolding invoke_tool invoke_retrying
invoke_tool-Counts ex tool inputs none a law resolves = attempt-Counts tool inputs attempt_error a
invoke_tool-Counts ex tool inputs (some p) a law resolves =
    elim (Bool-cases (ex.strict_safety && retry_disallowed_by_contract tool)) [
      | inl once_only ↦ rw once_only (attempt-Counts tool inputs suppressed a)
      | inr may_retry ↦
          rw may_retry (by_reference (ex.retryable p.retryable_errors) (resolves p refl))
    ]
  where
    add_one : p.max_retries + 1 ≡ suc p.max_retries
    add_one = omega arith

    by_reference :
        (retry : Outcome (Exc → Bool))
        → Resolves retry
        → Counts a (p.max_retries + 1) (invoke_retrying ex tool inputs p retry a)
    by_reference (raised e) found = absurd found
    by_reference (returned retry) found =
        subst (λ n. Counts a n (ex.retrying n retry (attempt tool inputs attempt_error) a))
          (sym add_one) (retrying-Counts ex.retrying law retry tool inputs p.max_retries a)
