-- ===== src/Executor/Merge/Meaning.antt =====
-- The context after the outputs of a step are merged, and when they are not.
use chain_weaver.Common.{
  ℕ, String, true, false, Option, none, some, List, [], ◌∷◌, ◌≡◌, refl, sym, subst, inl, inr, arith,
  Bool-cases, ◌==◌, eq_iff, eq_refl,
}
use chain_weaver.Dict.{lookup, has}
use chain_weaver.Dict.Unique.{or_else, IsDict, insert-IsDict, lookup-update}
use chain_weaver.Value.{Value, Context}
use chain_weaver.Executor.Types.{
  context_key_collision, Result, ok, raise, CollisionPolicy, warn, overwrite, collision_error,
}
use chain_weaver.Executor.Merge.{
  project_found, project, apply_output_mapping, collisions, unless_colliding, merge_projected,
  merge_after, merge_step_outputs,
}

-- The key is in both dictionaries.
abbrev pub IsShared : Context → Context → String → Type 0
IsShared context outputs key = (has key context ≡ true) × (has key outputs ≡ true)

abbrev Collides : Context → Context → List String → Type 0
Collides context outputs [] = (key : String) → has key outputs ≡ true → has key context ≡ false
Collides context outputs (key ∷ keys) = IsShared context outputs key

module _ (context : Context) where
  Collides-cons :
      (k : String) (v : Value) (outputs : Context) (keys : List String)
      → has k context ≡ false
      → Collides context outputs keys
      → Collides context ((k, v) ∷ outputs) keys
  unfolding lookup
  Collides-cons k v outputs [] fresh none_shared = λ key inside. elim (Bool-cases (k == key)) [
    | inl same ↦ subst (λ name. has name context ≡ false) ((eq_iff k key).0 same) fresh
    | inr apart ↦ none_shared key (simp apart at inside)
  ]
  Collides-cons k v outputs (key ∷ keys) fresh (there, here) = elim (Bool-cases (k == key)) [
    | inl same ↦ (there, simp same refl)
    | inr apart ↦ (there, simp apart here)
  ]

  collisions-Collides : (outputs : Context) → Collides context outputs (collisions context outputs)
  unfolding collisions lookup
  collisions-Collides [] = λ key inside. ground arith
  collisions-Collides ((k, v) ∷ outputs) = elim (Bool-cases (has k context)) [
    | inl shared ↦ simp shared (refl, simp (eq_refl k) refl)
    | inr fresh ↦
        simp fresh (
          Collides-cons k v outputs (collisions context outputs) fresh
            (collisions-Collides outputs))
  ]

abbrev OkIsDict : Result Context → Type 0
OkIsDict (raise e) = Unit
OkIsDict (ok d) = IsDict d

-- What a merge of the projected outputs `projected` comes to.
pub data Merges (policy : CollisionPolicy) (context projected : Context)
    : Result Context → Type 0 where
  refused :
      (name : String) (i : ℕ) (key : String) (keys : List String)
      → policy ≡ collision_error
      → IsShared context projected key
      → Merges policy context projected (raise (context_key_collision name i (key ∷ keys)))
  merged :
      (context' : Context)
      → (policy ≡ collision_error
          → (key : String) → has key projected ≡ true
          → has key context ≡ false)
      → ((key : String) → lookup key context' ≡ or_else (lookup key projected) (lookup key context))
      → Merges policy context projected (ok context')

module _ (name : String) (i : ℕ) where
  project_found-IsDict :
      (context_key output_key : String) (mapped : Context) (found : Option Value)
      → IsDict mapped
      → OkIsDict (project_found name i context_key output_key mapped found)
  unfolding project_found
  project_found-IsDict context_key output_key mapped none unique = tt
  project_found-IsDict context_key output_key mapped (some v) unique =
      insert-IsDict context_key v mapped unique

  project-IsDict :
      (outputs : Context) (entries : List (String × String)) (mapped : Result Context)
      → OkIsDict mapped
      → OkIsDict (project name i outputs mapped entries)
  unfolding project
  project-IsDict outputs [] mapped unique = unique
  project-IsDict outputs (entry ∷ entries) (raise e) unique = tt
  project-IsDict outputs (entry ∷ entries) (ok mapped) unique =
      project-IsDict outputs entries _
        (project_found-IsDict entry.0 entry.1 mapped (lookup entry.1 outputs) unique)

  apply_output_mapping-IsDict :
      (outputs : Context) (mapping : Option (List (String × String)))
      → IsDict outputs
      → OkIsDict (apply_output_mapping name i outputs mapping)
  unfolding apply_output_mapping
  apply_output_mapping-IsDict outputs none unique = unique
  apply_output_mapping-IsDict outputs (some mapping) unique =
      project-IsDict outputs mapping (ok []) tt

  unless_colliding-Merges :
      (context projected : Context) (keys : List String)
      → IsDict projected
      → Collides context projected keys
      → Merges collision_error context projected (unless_colliding name i context projected keys)
  unfolding unless_colliding
  unless_colliding-Merges context projected [] unique apart =
      merged _ (λ same. apart) (λ key. lookup-update key context projected unique)
  unless_colliding-Merges context projected (key ∷ keys) unique shared =
      refused name i key keys refl shared

  merge_projected-Merges :
      (policy : CollisionPolicy) (context projected : Context)
      → IsDict projected
      → Merges policy context projected (merge_projected policy name i context projected)
  unfolding merge_projected
  merge_projected-Merges collision_error context projected unique =
      unless_colliding-Merges context projected (collisions context projected) unique
        (collisions-Collides context projected)
  merge_projected-Merges warn context projected unique =
      merged _ (λ e. ground arith) (λ key. lookup-update key context projected unique)
  merge_projected-Merges overwrite context projected unique =
      merged _ (λ e. ground arith) (λ key. lookup-update key context projected unique)

  -- Merging a step's outputs, whose keys are different, after the output mapping gave `projected`:
  -- where the flow asks for an error on a collision and some projected key is in the context, the
  -- merge is refused and names such a key first; otherwise every key of the new context reads the
  -- projected value if there is one, and what the old context had if not.
  pub merge_step_outputs-Merges :
      (policy : CollisionPolicy) (context outputs projected : Context)
      (mapping : Option (List (String × String)))
      → IsDict outputs
      → apply_output_mapping name i outputs mapping ≡ ok projected
      → Merges policy context projected (merge_step_outputs policy name i context outputs mapping)
  unfolding merge_step_outputs merge_after
  merge_step_outputs-Merges policy context outputs projected mapping unique e =
      subst (λ result. Merges policy context projected (merge_after policy name i context result))
        (sym e)
        (merge_projected-Merges policy context projected
          (subst OkIsDict e (apply_output_mapping-IsDict outputs mapping unique)))
