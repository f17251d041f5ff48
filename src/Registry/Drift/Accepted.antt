-- ===== src/Registry/Drift/Accepted.antt =====
-- What the compatibility check finds, and that a new snapshot of the hashes is
-- current.
use chain_weaver.Common.{
  ℕ, suc, String, Bool, true, false, Option, none, some, List, [], ◌∷◌, ◌++◌, ◌≡◌, ◌↔◌, refl, sym,
  ap, subst, ◌∙◌, inl, inr, arith, ◌==◌, eq_iff, eq_refl, All, Bool-cases,
}
use chain_weaver.Dict.{lookup, insert}
use chain_weaver.Registry.{StepNames, AnyFlow}
use chain_weaver.Registry.Drift.{
  Hashes, CompatibilityIssue, recorded, mismatch, step_issues, tool_issues, issues_from,
  check_flow_compatibility, drift_from, add_hash, new_hashes,
}

-- A tool is registered, and has the recorded hash if there is one.
abbrev pub IsMatching : (found recorded : Option String) → Type 0
IsMatching none expected = ⊥
IsMatching (some actual) none = Unit
IsMatching (some actual) (some expected) = expected ≡ actual

-- The step invokes no tool, or one that matches.
abbrev pub IsCompatible : Hashes → Option Hashes → Option String → Type 0
IsCompatible tools hashes none = Unit
IsCompatible tools hashes (some tool_name) =
    IsMatching (lookup tool_name tools) (recorded tool_name hashes)

abbrev is_nothing : List CompatibilityIssue → Bool
is_nothing [] = true
is_nothing (issue ∷ issues) = false

nothing_appended : (xs ys : List CompatibilityIssue) → xs ++ ys ≡ [] → (xs ≡ []) × (ys ≡ [])
nothing_appended [] ys e = (refl, e)
nothing_appended (x ∷ xs) ys e = ground (arith, ap is_nothing e)

module _ (flow_name : String) (tools : Hashes) (hashes : Option Hashes) where
  mismatch_iff :
      (i : ℕ) (tool_name actual : String) (expected : Option String)
      → (mismatch flow_name tools hashes i tool_name actual expected ≡ [])
        ↔ IsMatching (some actual) expected
  unfolding mismatch
  mismatch_iff i tool_name actual none = (λ e. tt, λ m. refl)
  mismatch_iff i tool_name actual (some expected) = elim (Bool-cases (expected == actual)) [
    | inl same ↦ simp same (λ e. (eq_iff expected actual).0 same, λ m. refl)
    | inr other ↦ simp other (
      λ e. ground (arith, ap is_nothing e),
      λ m. ground (arith, other, (eq_iff expected actual).1 m),
    )
  ]

  step_issues_iff :
      (i : ℕ) (tool_name : String) (found : Option String)
      → (step_issues flow_name tools hashes i tool_name found ≡ [])
        ↔ IsMatching found (recorded tool_name hashes)
  unfolding step_issues
  step_issues_iff i tool_name none = (λ e. ground (arith, ap is_nothing e), λ m. absurd m)
  step_issues_iff i tool_name (some actual) =
      mismatch_iff i tool_name actual (recorded tool_name hashes)

  tool_issues_iff :
      (i : ℕ) (tool_name : Option String)
      → (tool_issues flow_name tools hashes i tool_name ≡ []) ↔ IsCompatible tools hashes tool_name
  tool_issues_iff i none = (λ e. tt, λ m. refl)
  tool_issues_iff i (some tool_name) = step_issues_iff i tool_name (lookup tool_name tools)

  issues_from_iff :
      (i : ℕ) (steps : List StepNames)
      → (issues_from flow_name tools hashes i steps ≡ [])
        ↔ All (λ step. IsCompatible tools hashes step.tool_name) steps
  unfolding issues_from
  issues_from_iff i [] = (λ e. tt, λ m. refl)
  issues_from_iff i (step ∷ steps) = (
    λ e.
        let (this, rest) = nothing_appended _ _ e in
        ((tool_issues_iff i step.tool_name).0 this, (issues_from_iff (suc i) steps).0 rest),
    λ m.
        ap (λ l. l ++ issues_from flow_name tools hashes (suc i) steps)
          ((tool_issues_iff i step.tool_name).1 m.0)
        ∙ (issues_from_iff (suc i) steps).1 m.1,
  )

-- A flow has no compatibility issue exactly where each tool that a step of it invokes is registered,
-- with the hash that the flow has recorded of it, if it has recorded one.
pub check_flow_compatibility_iff :
    (flow : AnyFlow) (tools : Hashes)
    → (check_flow_compatibility flow tools ≡ [])
      ↔ All (λ step. IsCompatible tools flow.tool_schema_hashes step.tool_name) flow.step_names
unfolding check_flow_compatibility
check_flow_compatibility_iff flow tools =
    issues_from_iff flow.name tools flow.tool_schema_hashes 0 flow.step_names

module _ (tools : Hashes) where
  -- Every recorded hash is that of the registered tool.
  abbrev pub IsCurrent : Hashes → Type 0
  IsCurrent hashes = All (λ entry. lookup entry.0 tools ≡ some entry.1) hashes

  insert-IsCurrent :
      (name hash : String) (hashes : Hashes)
      → lookup name tools ≡ some hash
      → IsCurrent hashes
      → IsCurrent (insert name hash hashes)
  unfolding insert
  insert-IsCurrent name hash [] now current = (now, tt)
  insert-IsCurrent name hash ((j, old) ∷ hashes) now (this, current) =
      elim (Bool-cases (j == name)) [
        | inl same ↦
            simp same
              (subst (λ k. lookup k tools ≡ some hash) (sym ((eq_iff j name).0 same)) now, current)
        | inr other ↦ simp other (this, insert-IsCurrent name hash hashes now current)
      ]

  add_hash-IsCurrent :
      (name : String) (found : Option String) (hashes : Hashes)
      → lookup name tools ≡ found
      → IsCurrent hashes
      → IsCurrent (add_hash tools name found hashes)
  add_hash-IsCurrent name none hashes now current = current
  add_hash-IsCurrent name (some hash) hashes now current =
      insert-IsCurrent name hash hashes now current

  pub new_hashes-IsCurrent :
      (hashes : Hashes) (steps : List StepNames)
      → IsCurrent hashes
      → IsCurrent (new_hashes tools hashes steps)
  unfolding new_hashes
  new_hashes-IsCurrent hashes [] current = current
  new_hashes-IsCurrent hashes (step ∷ steps) current =
      new_hashes-IsCurrent
        (add_hash tools step.display_name (lookup step.display_name tools) hashes) steps
        (add_hash-IsCurrent step.display_name (lookup step.display_name tools) hashes refl current)

  pub drift_from-IsCurrent :
      (flow_name : String) (hashes : Hashes)
      → IsCurrent hashes
      → drift_from tools flow_name hashes ≡ []
  unfolding drift_from
  drift_from-IsCurrent flow_name [] current = refl
  drift_from-IsCurrent flow_name ((tool_name, expected) ∷ hashes) (this, current) =
      simp (this, eq_refl expected, drift_from-IsCurrent flow_name hashes current) refl

  pub lookup-IsCurrent :
      (name hash : String) (hashes : Hashes)
      → IsCurrent hashes
      → lookup name hashes ≡ some hash
      → lookup name tools ≡ some hash
  unfolding lookup
  lookup-IsCurrent name hash [] current e = ground (arith, e)
  lookup-IsCurrent name hash ((j, old) ∷ hashes) (this, current) e = elim (Bool-cases (j == name)) [
    | inl same ↦
        subst (λ k. lookup k tools ≡ some hash) ((eq_iff j name).0 same) (this ∙ (simp same at e))
    | inr other ↦ lookup-IsCurrent name hash hashes current (simp other at e)
  ]
