-- ===== src/Registry/Drift/Settled.antt =====
-- That accepting a drift settles it.
use chain_weaver.Common.{
  ℕ, suc, String, true, false, Option, none, some, List, [], ◌∷◌, ◌++◌, ◌≡◌, refl, sym, ap, subst,
  ◌∙◌, inl, inr, arith, Bool, ◌==◌, ◌&&◌, eq_iff, All, any, Bool-cases, if◌then◌else◌,
}
use chain_weaver.Dict.{lookup}
use chain_weaver.Dict.Laws.{lookup-insert}
use chain_weaver.PairDict.{find, is_found}
use chain_weaver.PairDict.Laws.{find-store, key_eq_refl}
use chain_weaver.Registry.{
  StepNames, AnyFlow, active_status, Versions, Registry, Outcome, gives, get_flow, flow_key,
  save_flow, after_save, update_found, update_flow_state,
}
use chain_weaver.Registry.Drift.{
  Hashes, missing_tool, CompatibilityIssue, mismatch, step_issues, tool_issues, issues_from,
  check_flow_compatibility, flow_drift, add_hash, new_hashes, accept_found, accept_drift,
}
use chain_weaver.Registry.Drift.Accepted.{
  IsCurrent, new_hashes-IsCurrent, drift_from-IsCurrent, lookup-IsCurrent,
}

-- The issue is that a tool is not registered.
abbrev pub IsMissing : CompatibilityIssue → Type 0
IsMissing issue = issue.issue_type ≡ missing_tool

AllMissing-append :
    (xs ys : List CompatibilityIssue)
    → All IsMissing xs
    → All IsMissing ys
    → All IsMissing (xs ++ ys)
AllMissing-append [] ys all all' = all'
AllMissing-append (x ∷ xs) ys (this, all) all' = (this, AllMissing-append xs ys all all')

module _ (tools : Hashes) where
  module _ (flow_name : String) (hashes : Hashes) (current : IsCurrent tools hashes) where
    mismatch-AllMissing :
        (i : ℕ) (tool_name actual : String) (expected : Option String)
        → lookup tool_name tools ≡ some actual
        → lookup tool_name hashes ≡ expected
        → All IsMissing (mismatch flow_name tools (some hashes) i tool_name actual expected)
    unfolding mismatch
    mismatch-AllMissing i tool_name actual none now was = tt
    mismatch-AllMissing i tool_name actual (some expected) now was =
        let same : actual ≡ expected =
          ap (λ o. out_of o)
            (sym now ∙ lookup-IsCurrent tools tool_name expected hashes current was) in
        simp ((eq_iff expected actual).1 (sym same)) tt
      where
        out_of : Option String → String
        out_of none = actual
        out_of (some hash) = hash

    step_issues-AllMissing :
        (i : ℕ) (tool_name : String) (found : Option String)
        → lookup tool_name tools ≡ found
        → All IsMissing (step_issues flow_name tools (some hashes) i tool_name found)
    unfolding step_issues
    step_issues-AllMissing i tool_name none now = (refl, tt)
    step_issues-AllMissing i tool_name (some actual) now =
        mismatch-AllMissing i tool_name actual (lookup tool_name hashes) now refl

    tool_issues-AllMissing :
        (i : ℕ) (tool_name : Option String)
        → All IsMissing (tool_issues flow_name tools (some hashes) i tool_name)
    tool_issues-AllMissing i none = tt
    tool_issues-AllMissing i (some tool_name) =
        step_issues-AllMissing i tool_name (lookup tool_name tools) refl

    issues_from-AllMissing :
        (i : ℕ) (steps : List StepNames)
        → All IsMissing (issues_from flow_name tools (some hashes) i steps)
    unfolding issues_from
    issues_from-AllMissing i [] = tt
    issues_from-AllMissing i (step ∷ steps) =
        AllMissing-append _ _ (tool_issues-AllMissing i step.tool_name)
          (issues_from-AllMissing (suc i) steps)

  -- The hashes are those of the tools that steps name and that are registered, and no other.
  abbrev pub IsSnapshot : Option Hashes → List StepNames → Type 0
  IsSnapshot none steps = ⊥
  IsSnapshot (some hashes) steps =
      (name : String)
      → lookup name hashes
        ≡ (if any (λ step. step.display_name == name) steps then lookup name tools else none)

  -- The drift of the flow `found` is settled with a flow of its name, version and steps that is active
  -- and stored in its place, whose hashes are a new snapshot, that has no drift, and that has no
  -- compatibility issue but tools that are not registered.
  pub record IsSettled (found : AnyFlow) (out : Outcome AnyFlow × Registry) : Type 0 where
    pub flow : AnyFlow
    pub same_key : flow_key flow ≡ flow_key found
    pub same_steps : flow.step_names ≡ found.step_names
    pub snapshot : IsSnapshot flow.tool_schema_hashes found.step_names
    pub accepted : out.0 ≡ gives flow
    pub active : flow.status ≡ active_status
    pub stored : find (flow_key flow) out.1.flows ≡ some flow
    pub no_drift : flow_drift tools flow.name flow.tool_schema_hashes ≡ []
    pub compatible : All IsMissing (check_flow_compatibility flow tools)

  or_before : Option String → Option String → Option String
  or_before none was = was
  or_before (some hash) was = some hash

  lookup-add_hash :
      (name key : String) (found : Option String) (hashes : Hashes)
      → lookup name (add_hash tools key found hashes)
        ≡ (if key == name then or_before found (lookup name hashes) else lookup name hashes)
  unfolding or_before
  lookup-add_hash name key none hashes = elim (Bool-cases (key == name)) [
    | inl same ↦ simp same refl
    | inr other ↦ simp other refl
  ]
  lookup-add_hash name key (some hash) hashes = lookup-insert key name hash hashes

  or_before_idem :
      (found was : Option String) → or_before found (or_before found was) ≡ or_before found was
  unfolding or_before
  or_before_idem none was = refl
  or_before_idem (some hash) was = refl

  twice :
      (b : Bool) (found was : Option String)
      → (if b then or_before found (or_before found was) else or_before found was)
        ≡ or_before found was
  twice true found was = or_before_idem found was
  twice false found was = refl

  lookup-new_hashes :
      (name : String) (hashes : Hashes) (steps : List StepNames)
      → lookup name (new_hashes tools hashes steps) ≡ (
          if any (λ step. step.display_name == name) steps
          then or_before (lookup name tools) (lookup name hashes)
          else lookup name hashes)
  unfolding new_hashes
  lookup-new_hashes name hashes [] = refl
  lookup-new_hashes name hashes (step ∷ steps) =
      lookup-new_hashes name
        (add_hash tools step.display_name (lookup step.display_name tools) hashes) steps
      ∙ elim (Bool-cases (step.display_name == name)) [
        | inl same ↦
            let now =
              lookup-add_hash name step.display_name (lookup step.display_name tools) hashes
              ∙ simp same (
                  ap (λ k. or_before (lookup k tools) (lookup name hashes))
                    ((eq_iff step.display_name name).0 same)) in
            simp (same, now)
              (twice (any (λ s. s.display_name == name) steps) (lookup name tools)
                (lookup name hashes))
        | inr other ↦
            let now =
              lookup-add_hash name step.display_name (lookup step.display_name tools) hashes
              ∙ simp other refl in
            simp (other, now) refl
      ]

  lookup-snapshot :
      (name : String) (steps : List StepNames)
      → lookup name (new_hashes tools [] steps)
        ≡ (if any (λ step. step.display_name == name) steps then lookup name tools else none)
  unfolding lookup or_before
  lookup-snapshot name steps =
      lookup-new_hashes name [] steps
      ∙ ap (λ o. if any (λ step. step.display_name == name) steps then o else none)
          (or_none (lookup name tools))
    where
      or_none : (o : Option String) → or_before o none ≡ o
      or_none none = refl
      or_none (some hash) = refl

  -- The flow as it is accepted.
  abbrev accepted_flow : AnyFlow → AnyFlow
  accepted_flow flow = record flow {
    status = active_status;
    tool_schema_hashes = some (new_hashes tools [] flow.step_names);
  }

  module _ (versions : Versions) where
    after_save-IsSettled :
        (flow : AnyFlow) (reg : Registry)
        → IsSettled flow (
            after_save versions
              (accepted_flow flow)
              (save_flow (accepted_flow flow) true reg.flows)
              reg)
    unfolding after_save save_flow check_flow_compatibility
    after_save-IsSettled flow reg =
        let free : (is_found (find (flow_key flow) reg.flows) && false) ≡ false = ground arith in
        let current = new_hashes-IsCurrent tools [] flow.step_names tt in
        simp free (record {
          flow = accepted_flow flow;
          same_key = refl;
          same_steps = refl;
          snapshot = λ name. lookup-snapshot name flow.step_names;
          accepted = refl;
          active = refl;
          stored =
              find-store (flow_key flow) (flow_key flow) (accepted_flow flow) reg.flows
              ∙ simp (key_eq_refl (flow_key flow)) refl;
          no_drift = drift_from-IsCurrent tools flow.name _ current;
          compatible = issues_from-AllMissing flow.name _ current 0 flow.step_names;
        })

    -- Accepting the drift of a flow that is found settles it: the flow that is stored in its place has
    -- its name, version and steps, is active, and has recorded the hashes of exactly the registered
    -- tools that its steps name; the drift report has nothing on it, and the only compatibility issues that it can have
    -- are tools that are not registered.
    pub accept_drift-IsSettled :
        (name : String) (version : Option String) (reg : Registry) (flow : AnyFlow)
        → get_flow versions reg name version ≡ gives flow
        → IsSettled flow (accept_drift tools versions name version reg)
    unfolding accept_drift accept_found update_flow_state update_found
    accept_drift-IsSettled name version reg flow found =
        subst (IsSettled flow)
          (sym (
            ap (λ o. accept_found tools versions name version o reg) found
            ∙ ap
                (λ o.
                  update_found versions (some active_status)
                    (some (some (new_hashes tools [] flow.step_names))) o reg)
                found))
          (after_save-IsSettled flow reg)
