-- ===== src/Composition.antt =====
-- `_validate_composition` of chainweaver/executor.py: the walk over the flows that a flow is
-- composed of. A flow stands as the names of its sub-flows, step by step; a path has its last flow
-- first.
pub mod Nested
pub mod Ended
mod Tests
use chain_weaver.Common.{
  ℕ, zero, suc, ◌+◌, String, Bool, true, false, Option, none, some, List, [], ◌∷◌, ltb, length,
  contains, if◌then◌else◌,
}

-- The kinds of FlowCompositionError, each with the chain of its message.
pub data CompositionError : Type 0 where
  cycle max_depth_exceeded unknown_flow : List String → CompositionError

-- `exhausted` is the end of the fuel, not an outcome of the code.
pub data Walk : Type 0 where
  accepted exhausted : Walk
  rejected : CompositionError → Walk

-- What follows is walked only where nothing was found before.
abbrev pub and_next : Walk → Walk → Walk
and_next accepted rest = rest
and_next exhausted rest = exhausted
and_next (rejected e) rest = rejected e

-- `for step in current.steps`
unfoldable pub each : (String → Walk) → List (Option String) → Walk
each enter [] = accepted
each enter (none ∷ steps) = each enter steps
each enter (some sub_name ∷ steps) = and_next (enter sub_name) (each enter steps)

module _ (get_flow : String → Option (List (Option String))) (max_depth : ℕ) where
  unfoldable pub enter_found :
      (List String → List (Option String) → Walk)
      → List String
      → Option (List (Option String))
      → Walk
  enter_found walk chain none = rejected (unknown_flow chain)
  enter_found walk chain (some steps) = walk chain steps

  -- The guards on a sub-flow, then `visit` of it.
  unfoldable pub enter : (List String → List (Option String) → Walk) → List String → String → Walk
  unfolding enter_found
  enter walk path sub_name =
      let deeper = enter_found walk (sub_name ∷ path) (get_flow sub_name) in
      if contains sub_name path
      then rejected (cycle (sub_name ∷ path))
      else if ltb max_depth (length path)
      then rejected (max_depth_exceeded (sub_name ∷ path))
      else deeper

  -- `visit`, on fuel.
  unfoldable pub visit : ℕ → List String → List (Option String) → Walk
  unfolding each enter
  visit zero path steps = exhausted
  visit (suc fuel) path steps = each (enter (visit fuel) path) steps

  -- The fuel: no path is longer than this.
  unfoldable pub validate_composition : String → List (Option String) → Walk
  unfolding visit
  validate_composition name steps = visit (suc (suc max_depth)) (name ∷ []) steps
