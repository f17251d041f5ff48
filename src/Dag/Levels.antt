-- ===== src/Dag/Levels.antt =====
-- `_compute_dag_levels` of chainweaver/executor.py, after the topology is validated. The order of
-- the steps is that of graphlib's TopologicalSorter, which is a parameter; a step stands as its
-- identifier, and the graph has the identifiers that it depends on.
pub mod Rule
pub mod Agree
use chain_weaver.Common.{
  ℕ, suc, String, Bool, true, false, Option, none, some, List, [], ◌∷◌, leb, nat_eq, if◌then◌else◌,
}
use chain_weaver.Dict.{Dict, lookup, insert}

-- `{s.step_id: set(s.depends_on) for s in flow.steps}`
abbrev pub Graph : Type 0
Graph = Dict (List String)

-- `TopologicalSorter(graph).static_order()`; `none` is CycleError.
abbrev pub Sorter : Type 0
Sorter = Graph → Option (List String)

abbrev pub max : ℕ → ℕ → ℕ
max a b = if leb a b then b else a

abbrev pub both_max : Option ℕ → Option ℕ → Option ℕ
both_max (some a) (some b) = some (max a b)
both_max (some a) none = none
both_max none b = none

-- `max(levels[dep] for dep in ...)` over `d` and `deps`; `none` is KeyError.
unfoldable pub max_level : Dict ℕ → String → List String → Option ℕ
max_level levels d [] = lookup d levels
max_level levels d (e ∷ deps) = both_max (lookup d levels) (max_level levels e deps)

abbrev pub plus_one : Option ℕ → Option ℕ
plus_one none = none
plus_one (some k) = some (suc k)

unfoldable pub level_for : Dict ℕ → List String → Option ℕ
level_for levels [] = some 0
level_for levels (d ∷ deps) = plus_one (max_level levels d deps)

unfoldable pub store_level : String → Dict ℕ → Option ℕ → Option (Dict ℕ)
store_level step_id levels none = none
store_level step_id levels (some level) = some (insert step_id level levels)

unfoldable pub place : String → Dict ℕ → Option (List String) → Option (Dict ℕ)
place step_id levels none = none
place step_id levels (some deps) = store_level step_id levels (level_for levels deps)

-- `for step_id in topo_order`
unfoldable pub assign_levels : Graph → Option (Dict ℕ) → List String → Option (Dict ℕ)
assign_levels graph none order = none
assign_levels graph (some levels) [] = some levels
assign_levels graph (some levels) (step_id ∷ order) =
    assign_levels graph (place step_id levels (lookup step_id graph)) order

unfoldable pub levels_along : Graph → Option (List String) → Option (Dict ℕ)
levels_along graph none = none
levels_along graph (some order) = assign_levels graph (some []) order

-- `levels` of a flow with this graph.
unfoldable pub compute_levels : Sorter → Graph → Option (Dict ℕ)
unfolding levels_along
compute_levels static_order graph = levels_along graph (static_order graph)

-- `grouped[level]`
unfoldable pub grouped : Dict ℕ → List String → ℕ → List String
grouped levels [] level = []
grouped levels (step_id ∷ order) level =
    let rest = grouped levels order level in
    elim (lookup step_id levels) [
      | none ↦ rest
      | some at ↦ if nat_eq at level then step_id ∷ rest else rest
    ]
