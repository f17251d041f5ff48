-- ===== src/Dag/Group.antt =====
-- `_compute_dag_levels` of chainweaver/executor.py as a whole: the steps of a flow, level by level.
use chain_weaver.Common.{
  ℕ, zero, suc, String, Option, none, some, List, [], ◌∷◌, ◌==◌, if◌then◌else◌,
}
use chain_weaver.Dict.{Dict}
use chain_weaver.Executor.Types.{dag_definition_error, Result, ok, raise}
use chain_weaver.Dag.Levels.{Sorter, max, compute_levels, grouped}
use chain_weaver.Dag.Topology.{DagStep, DagError, graph_of, validate_dag_topology}

-- `step_by_id[step_id]`: the last step with the identifier.
unfoldable pub step_by_id : Option DagStep → List DagStep → String → Option DagStep
step_by_id found [] step_id = found
step_by_id found (s ∷ steps) step_id =
    step_by_id (if s.step_id == step_id then some s else found) steps step_id

abbrev pub cons_some : Option DagStep → List DagStep → List DagStep
cons_some none steps = steps
cons_some (some s) steps = s ∷ steps

-- The steps with these identifiers. An order of the sorter has no identifier without a step.
unfoldable pub steps_by_id : List DagStep → List String → List DagStep
steps_by_id steps [] = []
steps_by_id steps (step_id ∷ ids) =
    cons_some (step_by_id none steps step_id) (steps_by_id steps ids)

-- `max_level + 1`
unfoldable pub level_count : Dict ℕ → ℕ
level_count [] = 0
level_count ((step_id, level) ∷ levels) = max (suc level) (level_count levels)

-- `grouped` from the level `first` on, for `count` levels.
unfoldable pub group_from :
    List DagStep → Dict ℕ → List String → (first count : ℕ) → List (List DagStep)
group_from steps levels order first zero = []
group_from steps levels order first (suc count) =
    steps_by_id steps (grouped levels order first) ∷ group_from steps levels order (suc first) count

unfoldable pub group_levels :
    String → List DagStep → Option (List String) → Option (Dict ℕ) → Result (List (List DagStep))
group_levels flow_name steps none levels = raise (dag_definition_error flow_name)
group_levels flow_name steps (some order) none = raise (dag_definition_error flow_name)
group_levels flow_name steps (some order) (some levels) =
    ok (group_from steps levels order 0 (level_count levels))

unfoldable pub when_valid :
    String → Option DagError → Result (List (List DagStep)) → Result (List (List DagStep))
when_valid flow_name (some e) levels = raise (dag_definition_error flow_name)
when_valid flow_name none levels = levels

unfoldable pub compute_dag_levels : Sorter → String → List DagStep → Result (List (List DagStep))
unfolding when_valid group_levels
compute_dag_levels static_order flow_name steps =
    when_valid flow_name (validate_dag_topology static_order steps) (
      group_levels flow_name steps (static_order (graph_of [] steps))
        (compute_levels static_order (graph_of [] steps)))
