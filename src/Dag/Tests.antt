-- ===== src/Dag/Tests.antt =====
-- The theorems on DAG flows at a diamond of four steps, in two orders.
use chain_weaver.Common.{true, ℕ, String, none, some, List, [], ◌∷◌, ◌≡◌, ◌↔◌, refl, All}
use chain_weaver.Dict.{Dict, lookup, insert}
use chain_weaver.Dag.Levels.{
  Graph, Sorter, compute_levels, assign_levels, place, store_level, level_for, max_level, grouped,
}
use chain_weaver.Dag.Levels.Rule.{IsOrder, HasLevel, compute_levels-HasLevel}
use chain_weaver.Dag.Levels.Agree.{Agree, compute_levels-Agree}
use chain_weaver.Dag.Topology.{
  ConditionalEdge, DagStep, validate_dag_topology, first_duplicate, first_unknown, unknown_in,
  bad_target, first_bad_target, dependents, unknown_branch_target,
}
use chain_weaver.Dag.Topology.Meaning.{IsTopology, validate_dag_topology_iff}
use chain_weaver.Executor.Types.{FlowStep, fail}
use chain_weaver.Dag.Branch.{holds, Evaluator, select_branch}
use chain_weaver.Dag.Branch.Local.{here, OnTarget, IsDependent, select_branch-OnTarget}

abbrev diamond : Graph
diamond =
    ("top", "left" ∷ "right" ∷ [])
    ∷ ("left", "base" ∷ [])
    ∷ ("right", "base" ∷ [])
    ∷ ("base", [])
    ∷ []

abbrev left_first : List String
left_first = "base" ∷ "left" ∷ "right" ∷ "top" ∷ []

abbrev right_first : List String
right_first = "base" ∷ "right" ∷ "left" ∷ "top" ∷ []

abbrev by_left : Sorter
by_left graph = some left_first

abbrev by_right : Sorter
by_right graph = some right_first

abbrev tool_step : String → FlowStep
tool_step name = record {
  tool_name = name;
  input_mapping = [];
  output_mapping = none;
  retry = none;
  on_error = fail;
  decision_candidates = none;
  input_contract = none;
  output_contract = none;
}

abbrev step_of : String → List String → List ConditionalEdge → DagStep
step_of step_id depends_on branches = record {
  step_id = step_id;
  depends_on = depends_on;
  branches = branches;
  default_next = none;
  work = tool_step step_id;
}

abbrev edge_to : String → ConditionalEdge
edge_to target = record { predicate = "rows > 0"; target_step_id = target }

abbrev branching : List DagStep
branching = step_of "base" [] (edge_to "left" ∷ []) ∷ step_of "left" ("base" ∷ []) [] ∷ []

-- The levels of the diamond, its middle level in the sorter's order, and a branch that goes too far.
runs :
    (compute_levels by_left diamond
      ≡ some (("base", 0) ∷ ("left", 1) ∷ ("right", 1) ∷ ("top", 2) ∷ []))
    × (grouped (("base", 0) ∷ ("left", 1) ∷ ("right", 1) ∷ ("top", 2) ∷ []) right_first 1
        ≡ "right" ∷ "left" ∷ [])
    × (validate_dag_topology by_left (
          step_of "base" [] (edge_to "top" ∷ [])
          ∷ step_of "left" ("base" ∷ []) []
          ∷ step_of "top" ("left" ∷ []) []
          ∷ [])
        ≡ some (unknown_branch_target "base" "top"))
unfolding compute_levels assign_levels place store_level level_for max_level grouped lookup insert
    validate_dag_topology first_duplicate first_unknown unknown_in bad_target first_bad_target
    dependents
runs = (refl, refl, refl)

left_first-IsOrder : IsOrder diamond [] left_first
unfolding lookup
left_first-IsOrder = (
  ([], refl, tt),
  refl,
  (
    ("base" ∷ [], refl, (refl, tt)),
    refl,
    (
      ("base" ∷ [], refl, (refl, tt)),
      refl,
      (("left" ∷ "right" ∷ [], refl, (refl, (refl, tt))), refl, tt),
    ),
  ),
)

right_first-IsOrder : IsOrder diamond [] right_first
unfolding lookup
right_first-IsOrder = (
  ([], refl, tt),
  refl,
  (
    ("base" ∷ [], refl, (refl, tt)),
    refl,
    (
      ("base" ∷ [], refl, (refl, tt)),
      refl,
      (("left" ∷ "right" ∷ [], refl, (refl, (refl, tt))), refl, tt),
    ),
  ),
)

compute_levels-HasLevel_example :
    (levels : Dict ℕ) × (compute_levels by_left diamond ≡ some levels)
    × All (HasLevel diamond levels) left_first
compute_levels-HasLevel_example =
    compute_levels-HasLevel by_left diamond left_first refl left_first-IsOrder

compute_levels-Agree_example :
    (levels : Dict ℕ) × (levels' : Dict ℕ) × (compute_levels by_left diamond ≡ some levels)
    × (compute_levels by_right diamond ≡ some levels')
    × All (Agree levels levels') left_first
compute_levels-Agree_example =
    compute_levels-Agree by_left by_right diamond left_first right_first refl refl
      left_first-IsOrder right_first-IsOrder (refl, (refl, (refl, (refl, tt))))

validate_dag_topology_iff_example :
    (validate_dag_topology by_left branching ≡ none) ↔ IsTopology by_left branching
validate_dag_topology_iff_example = validate_dag_topology_iff by_left branching

abbrev always : Evaluator
always predicate context = holds true

select_branch-OnTarget_example :
    OnTarget
      (IsDependent branching "base")
      (select_branch always (step_of "base" [] (edge_to "left" ∷ [])) [] [] none)
unfolding validate_dag_topology first_duplicate first_unknown unknown_in bad_target first_bad_target
    dependents
select_branch-OnTarget_example =
    select_branch-OnTarget by_left branching always (step_of "base" [] (edge_to "left" ∷ [])) [] []
      none refl here
