-- ===== src/Executor/Merge.antt =====
-- chainweaver/_execution/context.py: the projection of a step's outputs and their merge into the
-- context of the flow.
pub mod Laws
pub mod Meaning
use chain_weaver.Common.{
  ℕ, String, Bool, true, false, Option, none, some, List, [], ◌∷◌, map, if◌then◌else◌,
}
use chain_weaver.Dict.{Dict, lookup, has, insert, update}
use chain_weaver.Value.{Value, Context}
use chain_weaver.Executor.Types.{
  Error, context_key_collision, output_mapping_error, Result, ok, raise, CollisionPolicy, warn,
  overwrite, collision_error,
}

module _ (step_name : String) (step_index : ℕ) where
  unfoldable pub project_found : String → String → Context → Option Value → Result Context
  project_found context_key output_key mapped none =
      raise (output_mapping_error step_name step_index output_key)
  project_found context_key output_key mapped (some v) = ok (insert context_key v mapped)

  -- The loop over `output_mapping.items()`, after `mapped` is built so far.
  unfoldable pub project : Context → Result Context → List (String × String) → Result Context
  project outputs mapped [] = mapped
  project outputs (raise e) (entry ∷ entries) = raise e
  project outputs (ok mapped) (entry ∷ entries) =
      let (context_key, output_key) = entry in
      project outputs (project_found context_key output_key mapped (lookup output_key outputs))
        entries

  unfoldable pub apply_output_mapping : Context → Option (List (String × String)) → Result Context
  unfolding project project_found
  apply_output_mapping outputs none = ok outputs
  apply_output_mapping outputs (some mapping) = project outputs (ok []) mapping

-- `[key for key in outputs if key in context]`
unfoldable pub collisions : Context → Context → List String
collisions context [] = []
collisions context ((k, v) ∷ outputs) =
    let rest = collisions context outputs in if has k context then k ∷ rest else rest

module _ (step_name : String) (step_index : ℕ) (context outputs : Context) where
  -- The merge under the policy of an error, by the keys that collide.
  unfoldable pub unless_colliding : List String → Result Context
  unless_colliding [] = ok (update context outputs)
  unless_colliding (k ∷ ks) = raise (context_key_collision step_name step_index (k ∷ ks))

-- The merge of outputs that are projected already. Logging is left out.
unfoldable pub merge_projected : CollisionPolicy → String → ℕ → Context → Context → Result Context
unfolding collisions unless_colliding
merge_projected collision_error step_name step_index context outputs =
    unless_colliding step_name step_index context outputs (collisions context outputs)
merge_projected warn step_name step_index context outputs = ok (update context outputs)
merge_projected overwrite step_name step_index context outputs = ok (update context outputs)

unfoldable pub merge_after :
    CollisionPolicy → String → ℕ → Context → Result Context → Result Context
merge_after policy step_name step_index context (raise e) = raise e
merge_after policy step_name step_index context (ok outputs) =
    merge_projected policy step_name step_index context outputs

unfoldable pub merge_step_outputs :
    CollisionPolicy
    → String
    → ℕ
    → Context
    → Context
    → Option (List (String × String))
    → Result Context
unfolding merge_after merge_projected apply_output_mapping
merge_step_outputs policy step_name step_index context outputs mapping =
    merge_after policy step_name step_index context
      (apply_output_mapping step_name step_index outputs mapping)
