-- ===== src/Dag/Run/Tests.antt =====
-- The theorems on DAG runs at a flow of two steps, one after the other.
use chain_weaver.Common.{
  true, String, Option, none, some, List, [], ◌∷◌, ◌≡◌, refl, ◌==◌, if◌then◌else◌,
}
use chain_weaver.Dict.{lookup, insert}
use chain_weaver.Executor.Types.{FlowStep, Flow, warn, ok}
use chain_weaver.Executor.Safety.{IsAllowed}
use chain_weaver.Executor.Invoke.Calls.{AllAt}
use chain_weaver.Executor.Invoke.Retry.{documented-IsRetrying}
use chain_weaver.Executor.Result.{never}
use chain_weaver.Executor.Samples.{live_executor, fetch_step, save_step, fresh, after_first}
use chain_weaver.Dag.Levels.{
  Sorter, compute_levels, levels_along, assign_levels, place, store_level, level_for, max_level,
  grouped,
}
use chain_weaver.Dag.Topology.{
  DagStep, validate_dag_topology, first_duplicate, first_unknown, unknown_in, bad_target,
  first_bad_target, dependents, graph_of,
}
use chain_weaver.Dag.Branch.{holds, Evaluator}
use chain_weaver.Dag.Group.{
  step_by_id, steps_by_id, level_count, group_from, group_levels, when_valid, compute_dag_levels,
}
use chain_weaver.Dag.Run.{DagFlow, flow_of, execute_dag_flow}
use chain_weaver.Dag.Run.Calls.{execute_dag_flow-IsAllowed}
use chain_weaver.Dag.Run.Recovery.{DagResumable}
use chain_weaver.Dag.Run.Recovery.Levels.{execute_dag_flow-DagResumable}

abbrev chained : String → List String → FlowStep → DagStep
chained step_id depends_on work = record {
  step_id = step_id;
  depends_on = depends_on;
  branches = [];
  default_next = none;
  work = work;
}

abbrev first : DagStep
first = chained "first" [] fetch_step

abbrev second : DagStep
second = chained "second" ("first" ∷ []) save_step

abbrev pipeline : DagFlow
pipeline = record {
  name = "pipeline";
  version = "1.0.0";
  steps = first ∷ second ∷ [];
  input_schema = none;
  output_schema = none;
  context_schema = none;
  on_context_collision = warn;
}

abbrev in_turn : Sorter
in_turn graph = some ("first" ∷ "second" ∷ [])

abbrev always : Evaluator
always predicate context = holds true

abbrev get_pipeline : String → Option Flow
get_pipeline name = if name == "pipeline" then some (flow_of pipeline) else none

levels_of_pipeline :
    compute_dag_levels in_turn pipeline.name pipeline.steps ≡ ok ((first ∷ []) ∷ (second ∷ []) ∷ [])
unfolding compute_dag_levels when_valid group_levels group_from level_count steps_by_id step_by_id
    compute_levels levels_along assign_levels place store_level level_for max_level grouped lookup
    insert validate_dag_topology first_duplicate first_unknown unknown_in bad_target
    first_bad_target dependents graph_of
levels_of_pipeline = refl

execute_dag_flow-IsAllowed_example :
    AllAt
      (IsAllowed live_executor)
      (execute_dag_flow always in_turn live_executor pipeline "t1" [] never fresh).1.calls
execute_dag_flow-IsAllowed_example =
    execute_dag_flow-IsAllowed always in_turn live_executor pipeline "t1" [] never fresh
      documented-IsRetrying tt

execute_dag_flow-DagResumable_example :
    DagResumable always in_turn live_executor pipeline "t1" [] get_pipeline 0
      ((first ∷ []) ∷ (second ∷ []) ∷ [])
      (execute_dag_flow always in_turn live_executor pipeline "t1" [] never fresh)
      (execute_dag_flow always in_turn live_executor pipeline "t1" [] after_first fresh)
execute_dag_flow-DagResumable_example =
    execute_dag_flow-DagResumable always in_turn live_executor pipeline "t1" [] get_pipeline 0
      ((first ∷ []) ∷ (second ∷ []) ∷ []) levels_of_pipeline refl refl refl documented-IsRetrying
      after_first fresh
