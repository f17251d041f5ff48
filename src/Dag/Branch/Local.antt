-- ===== src/Dag/Branch/Local.antt =====
-- Where a branch of a validated flow leads.
use chain_weaver.Common.{
  String, true, false, Option, none, some, List, [], ◌∷◌, ◌++◌, ◌≡◌, map, All, contains,
}
use chain_weaver.Value.{Context}
use chain_weaver.Dag.Levels.{Sorter}
use chain_weaver.Dag.Topology.{
  ConditionalEdge, DagStep, default_of, dependents, targets, validate_dag_topology,
}
use chain_weaver.Dag.Topology.Valid.{IsChecked-iff}
use chain_weaver.Dag.Branch.{
  Selected, target, no_branch, bad_predicate, unevaluated, Evaluation, holds, syntax_error, raises,
  Evaluator, routed, otherwise, first_match, with_outputs, select_branch,
}

pub data IsStep (s : DagStep) : List DagStep → Type 0 where
  here : {steps : List DagStep} → IsStep s (s ∷ steps)
  there : {t : DagStep} {steps : List DagStep} → IsStep s steps → IsStep s (t ∷ steps)

step_at :
    (P : DagStep → Type 0) (s : DagStep) (steps : List DagStep) → IsStep s steps → All P steps → P s
step_at P s _ here (p, all) = p
step_at P s _ (there i) (p, all) = step_at P s _ i all

-- The selected target, if any, has the property.
abbrev pub OnTarget : (String → Type 0) → Selected → Type 0
OnTarget P (target step_id) = P step_id
OnTarget P no_branch = Unit
OnTarget P (bad_predicate e) = Unit
OnTarget P (unevaluated e) = Unit

module _ (P : String → Type 0) (evaluate : Evaluator) (context : Context) where
  otherwise-OnTarget :
      (default : Option String) → All P (default_of default) → OnTarget P (otherwise default)
  otherwise-OnTarget none all = tt
  otherwise-OnTarget (some step_id) (p, all) = p

  routed-OnTarget :
      (step_id : String) (matched : Evaluation) (later : Selected)
      → P step_id
      → OnTarget P later
      → OnTarget P (routed step_id matched later)
  routed-OnTarget step_id (raises e) later p rest = tt
  routed-OnTarget step_id (syntax_error e) later p rest = tt
  routed-OnTarget step_id (holds true) later p rest = p
  routed-OnTarget step_id (holds false) later p rest = rest

  first_match-OnTarget :
      (default : Option String) (edges : List ConditionalEdge)
      → All P (map (λ edge. edge.target_step_id) edges ++ default_of default)
      → OnTarget P (first_match evaluate context default edges)
  unfolding first_match
  first_match-OnTarget default [] all = otherwise-OnTarget default all
  first_match-OnTarget default (edge ∷ edges) (p, all) =
      routed-OnTarget edge.target_step_id (evaluate edge.predicate context) _ p
        (first_match-OnTarget default edges all)

-- It is a step of the flow, and lists `step_id` among the steps that it depends on.
abbrev pub IsDependent : List DagStep → String → String → Type 0
IsDependent steps step_id t =
    (contains t (map (λ u. u.step_id) steps) ≡ true)
    × (contains t (dependents steps step_id) ≡ true)

-- In a flow that `validate_dag_topology` accepts, whatever step of it branches and whatever its
-- predicates come to, a target that `_select_branch` returns is a direct dependent of the step.
pub select_branch-OnTarget :
    (static_order : Sorter) (steps : List DagStep) (evaluate : Evaluator) (step : DagStep)
    (context level_outputs : Context) (step_outputs : Option Context)
    → validate_dag_topology static_order steps ≡ none
    → IsStep step steps
    → OnTarget
        (IsDependent steps step.step_id)
        (select_branch evaluate step context level_outputs step_outputs)
unfolding select_branch
select_branch-OnTarget static_order steps evaluate step context level_outputs step_outputs valid
      at =
    let topology = (IsChecked-iff static_order steps).0 valid in
    first_match-OnTarget (IsDependent steps step.step_id) evaluate (with_outputs _ step_outputs)
      step.default_next step.branches
      (step_at (λ s. All (IsDependent steps s.step_id) (targets s)) step steps at topology.local)
