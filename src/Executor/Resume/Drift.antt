-- ===== src/Executor/Resume/Drift.antt =====
-- The guards on a snapshot that the same executor and flow have saved.
use chain_weaver.Common.{
  ℕ, String, true, Option, none, some, List, [], ◌∷◌, ◌≡◌, refl, sym, subst, inl, inr, Bool-cases,
  All, ◌==◌, eq_iff, eq_refl,
}
use chain_weaver.Dict.{Dict, lookup, insert}
use chain_weaver.Value.{Context}
use chain_weaver.Tools.{Tool}
use chain_weaver.Executor.Types.{ok, StepRecord, FlowStep, Flow, Run}
use chain_weaver.Versions.{same_major_refl}
use chain_weaver.Executor.Result.{Job, tool_hashes, snapshot_of}
use chain_weaver.Executor.Resume.{
  drift_of, first_drift, check_flow, check_snapshot, load_snapshot_for_resume,
}

module _ (tools : Dict Tool) where
  -- An entry that names a tool of the table, with its hash.
  abbrev Current : String × String → Type 0
  Current (name, hash) = (tool : Tool) × (lookup name tools ≡ some tool) × (tool.schema_hash ≡ hash)

  insert-Current :
      (name : String) (tool : Tool) (hashes : Dict String)
      → lookup name tools ≡ some tool
      → All Current hashes
      → All Current (insert name tool.schema_hash hashes)
  unfolding insert
  insert-Current name tool [] found all = ((tool, found, refl), tt)
  insert-Current name tool ((other, hash) ∷ hashes) found (this, all) =
      elim (Bool-cases (other == name)) [
        | inl same ↦ simp same (
          (
            tool,
            subst (λ n. lookup n tools ≡ some tool) (sym ((eq_iff other name).0 same)) found,
            refl,
          ),
          all,
        )
        | inr apart ↦ simp apart (this, insert-Current name tool hashes found all)
      ]

  added : Dict String → FlowStep → Option Tool → Dict String
  added hashes step none = hashes
  added hashes step (some tool) = insert step.tool_name tool.schema_hash hashes

  added-Current :
      (hashes : Dict String) (step : FlowStep) (found : Option Tool)
      → lookup step.tool_name tools ≡ found
      → All Current hashes
      → All Current (added hashes step found)
  unfolding added
  added-Current hashes step none e all = all
  added-Current hashes step (some tool) e all = insert-Current step.tool_name tool hashes e all

  tool_hashes-Current :
      (steps : List FlowStep) (hashes : Dict String)
      → All Current hashes
      → All Current (tool_hashes tools hashes steps)
  unfolding tool_hashes added
  tool_hashes-Current [] hashes all = all
  tool_hashes-Current (step ∷ steps) hashes all =
      tool_hashes-Current steps _ (added-Current hashes step (lookup step.tool_name tools) refl all)

  first_drift-Current :
      (trace_id : String) (hashes : Dict String)
      → All Current hashes
      → first_drift tools trace_id hashes ≡ none
  unfolding first_drift drift_of
  first_drift-Current trace_id [] all = refl
  first_drift-Current trace_id ((name, hash) ∷ hashes) ((tool, found, same), all) =
      rw (found, same, eq_refl hash) (first_drift-Current trace_id hashes all)

-- A snapshot that was saved under this executor's tools and this flow is loaded again: the
-- checkpointer is there, the registry still has the flow, and no guard refuses it.
pub load_snapshot-snapshot_of :
    (job : Job) (get_flow : String → Option Flow) (context : Context) (log : List StepRecord)
    (n levels : ℕ) (r : Run)
    → job.ex.checkpointer ≡ true
    → get_flow job.flow.name ≡ some job.flow
    → lookup job.trace_id r.snapshots ≡ some (snapshot_of job context log n levels)
    → load_snapshot_for_resume job.ex get_flow job.trace_id r
      ≡ ok (job.flow, snapshot_of job context log n levels)
unfolding load_snapshot_for_resume check_snapshot snapshot_of check_flow
load_snapshot-snapshot_of job get_flow context log n levels r on has saved =
    let current =
      first_drift-Current job.ex.tools job.trace_id (tool_hashes job.ex.tools [] job.flow.steps)
        (tool_hashes-Current job.ex.tools job.flow.steps [] tt) in
    rw (on, saved, same_major_refl job.ex.int_of "1", has, eq_refl job.flow.version, current) refl
