-- ===== src/Dag/Topology.antt =====
-- `validate_dag_topology` of chainweaver/flow/dag.py. A step of a DAG that invokes a tool has what
-- its topology reads, its identifier, the identifiers that it depends on, its conditional edges and
-- its default, beside `work`, the fields that it has as a step of a flow.
pub mod Valid
pub mod Meaning
use chain_weaver.Common.{
  String, Bool, true, false, Option, none, some, List, [], ◌∷◌, ◌++◌, map, not, ◌&&◌, contains,
  if◌then◌else◌,
}
use chain_weaver.Dict.{Dict, insert}
use chain_weaver.Executor.Types.{FlowStep}
use chain_weaver.Dag.Levels.{Graph, Sorter}

-- ConditionalEdge
pub record ConditionalEdge : Type 0 where
  pub predicate : String
  pub target_step_id : String

pub record DagStep : Type 0 where
  pub step_id : String
  pub depends_on : List String
  pub branches : List ConditionalEdge
  pub default_next : Option String
  pub work : FlowStep

-- DAGDefinitionError, by its reason.
pub data DagError : Type 0 where
  duplicate_step_id : String → DagError
  unknown_dependency : String → String → DagError
  cycle : DagError
  unknown_branch_target : String → String → DagError

-- The error of the check that is made first.
abbrev pub or_then : Option DagError → Option DagError → Option DagError
or_then (some e) later = some e
or_then none later = later

unfoldable pub first_duplicate : List String → List DagStep → Option DagError
first_duplicate seen [] = none
first_duplicate seen (s ∷ steps) =
    let rest = first_duplicate (s.step_id ∷ seen) steps in
    if contains s.step_id seen then some (duplicate_step_id s.step_id) else rest

unfoldable pub unknown_in : List String → String → List String → Option DagError
unknown_in ids step_id [] = none
unknown_in ids step_id (d ∷ deps) =
    let rest = unknown_in ids step_id deps in
    if contains d ids then rest else some (unknown_dependency step_id d)

unfoldable pub first_unknown : List String → List DagStep → Option DagError
first_unknown ids [] = none
first_unknown ids (s ∷ steps) =
    or_then (unknown_in ids s.step_id s.depends_on) (first_unknown ids steps)

-- `graph`
unfoldable pub graph_of : Graph → List DagStep → Graph
graph_of graph [] = graph
graph_of graph (s ∷ steps) = graph_of (insert s.step_id s.depends_on graph) steps

-- `sorter.prepare()`
abbrev pub cycle_of : Option (List String) → Option DagError
cycle_of none = some cycle
cycle_of (some order) = none

-- `dependents[step_id]`
unfoldable pub dependents : List DagStep → String → List String
dependents [] step_id = []
dependents (s ∷ steps) step_id =
    let rest = dependents steps step_id in
    if contains step_id s.depends_on then s.step_id ∷ rest else rest

abbrev pub default_of : Option String → List String
default_of none = []
default_of (some target) = target ∷ []

-- `candidates`
abbrev pub targets : DagStep → List String
targets s = map (λ edge. edge.target_step_id) s.branches ++ default_of s.default_next

unfoldable pub bad_target : List DagStep → List String → String → List String → Option DagError
bad_target steps ids step_id [] = none
bad_target steps ids step_id (target ∷ candidates) =
    let rest = bad_target steps ids step_id candidates in
    if contains target ids && contains target (dependents steps step_id)
    then rest
    else some (unknown_branch_target step_id target)

unfoldable pub first_bad_target : List DagStep → List String → List DagStep → Option DagError
first_bad_target all ids [] = none
first_bad_target all ids (s ∷ steps) =
    or_then (bad_target all ids s.step_id (targets s)) (first_bad_target all ids steps)

unfoldable pub validate_dag_topology : Sorter → List DagStep → Option DagError
validate_dag_topology static_order steps =
    let ids = map (λ s. s.step_id) steps in
    or_then (first_duplicate [] steps) (
      or_then (first_unknown ids steps)
        (or_then (cycle_of (static_order (graph_of [] steps))) (first_bad_target steps ids steps)))
