-- ===== src/Executor/Merge/Laws.antt =====
-- The errors that merging the outputs of a step raises.
use chain_weaver.Common.{ℕ, String, Option, none, some, List, [], ◌∷◌}
use chain_weaver.Dict.{lookup}
use chain_weaver.Value.{Value, Context}
use chain_weaver.Executor.Types.{
  Error, context_key_collision, output_mapping_error, Result, ok, raise, CollisionPolicy, warn,
  overwrite, collision_error,
}
use chain_weaver.Executor.Merge.{
  project_found, project, apply_output_mapping, collisions, merge_projected, merge_after,
  merge_step_outputs, unless_colliding,
}

-- The errors of a merge: a missing output key, or keys that collide.
pub data IsMergeError : Error → Type 0 where
  missing : (name : String) (i : ℕ) (key : String) → IsMergeError (output_mapping_error name i key)
  collided :
      (name : String) (i : ℕ) (keys : List String)
      → IsMergeError (context_key_collision name i keys)

-- A result that raises, if at all, such an error.
abbrev pub RaisesOnly : Result Context → Type 0
RaisesOnly (raise e) = IsMergeError e
RaisesOnly (ok outputs) = Unit

module _ (name : String) (i : ℕ) where
  project_found-RaisesOnly :
      (context_key output_key : String) (mapped : Context) (found : Option Value)
      → RaisesOnly (project_found name i context_key output_key mapped found)
  unfolding project_found
  project_found-RaisesOnly context_key output_key mapped none = missing name i output_key
  project_found-RaisesOnly context_key output_key mapped (some v) = tt

  project-RaisesOnly :
      (outputs : Context) (entries : List (String × String)) (mapped : Result Context)
      → RaisesOnly mapped
      → RaisesOnly (project name i outputs mapped entries)
  unfolding project
  project-RaisesOnly outputs [] mapped only = only
  project-RaisesOnly outputs (entry ∷ entries) (raise e) only = only
  project-RaisesOnly outputs (entry ∷ entries) (ok mapped) only =
      project-RaisesOnly outputs entries _
        (project_found-RaisesOnly entry.0 entry.1 mapped (lookup entry.1 outputs))

  pub apply_output_mapping-RaisesOnly :
      (outputs : Context) (mapping : Option (List (String × String)))
      → RaisesOnly (apply_output_mapping name i outputs mapping)
  unfolding apply_output_mapping
  apply_output_mapping-RaisesOnly outputs none = tt
  apply_output_mapping-RaisesOnly outputs (some mapping) =
      project-RaisesOnly outputs mapping (ok []) tt

  unless_colliding-RaisesOnly :
      (context outputs : Context) (keys : List String)
      → RaisesOnly (unless_colliding name i context outputs keys)
  unfolding unless_colliding
  unless_colliding-RaisesOnly context outputs [] = tt
  unless_colliding-RaisesOnly context outputs (k ∷ ks) = collided name i (k ∷ ks)

  merge_after-RaisesOnly :
      (policy : CollisionPolicy) (context : Context) (outputs : Result Context)
      → RaisesOnly outputs
      → RaisesOnly (merge_after policy name i context outputs)
  unfolding merge_after
  merge_after-RaisesOnly policy context (raise e) only = only
  merge_after-RaisesOnly warn context (ok outputs) only = unfold merge_projected in tt
  merge_after-RaisesOnly overwrite context (ok outputs) only = unfold merge_projected in tt
  merge_after-RaisesOnly collision_error context (ok outputs) only =
      unfold merge_projected in
      unless_colliding-RaisesOnly context outputs (collisions context outputs)

  pub merge_step_outputs-RaisesOnly :
      (policy : CollisionPolicy) (context outputs : Context)
      (mapping : Option (List (String × String)))
      → RaisesOnly (merge_step_outputs policy name i context outputs mapping)
  unfolding merge_step_outputs
  merge_step_outputs-RaisesOnly policy context outputs mapping =
      merge_after-RaisesOnly policy context _ (apply_output_mapping-RaisesOnly outputs mapping)
