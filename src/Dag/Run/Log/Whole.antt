-- ===== src/Dag/Run/Log/Whole.antt =====
-- The execution log that a DAG run leaves: the loop over the levels, and what surrounds it.
use chain_weaver.Common.{ℕ, ◌+◌, String, List, ◌≡◌, length}
use chain_weaver.Executor.Types.{dag_definition_error, Result, ok, raise, Run, Executor}
use chain_weaver.Executor.Result.{Job}
use chain_weaver.Executor.Linear.Log.{Fine}
use chain_weaver.Dict.{Dict}
use chain_weaver.Dag.Topology.{DagStep}
use chain_weaver.Dag.Run.{DagState, DagRest}
use chain_weaver.Dag.Run.Log.{DagLogPost, size}

module _ (total : ℕ) (job : Job) where
  -- The loop over the levels has one record of success for each step so far, and `more` to go.
  pub record AtLevel (more : ℕ) (st : DagState) : Type 0 where
    pub logged : Fine st.log
    pub count : st.flat_index ≡ length st.log
    pub left : st.flat_index + more ≡ total

  -- What follows a level keeps the property.
  abbrev RestPost : ℕ → DagRest → Type 0
  RestPost more rest = (st : DagState) (r : Run) → AtLevel more st → DagLogPost total (rest st r).0

-- The number of steps in the levels of a flow, 0 if it has none.
abbrev pub scheduled : Result (List (List DagStep)) → ℕ
scheduled (raise e) = 0
scheduled (ok levels) = size levels

-- The levels of a flow are refused, if at all, as those of a flow that is not valid.
abbrev OnlyInvalid : String → Result (List (List DagStep)) → Type 0
OnlyInvalid name (raise e) = e ≡ dag_definition_error name
OnlyInvalid name (ok levels) = Unit
