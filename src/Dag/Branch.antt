-- ===== src/Dag/Branch.antt =====
-- `_select_branch` of chainweaver/executor.py. The evaluation of a predicate is an argument.
pub mod Local
use chain_weaver.Common.{String, Bool, true, false, Option, none, some, List, [], ◌∷◌}
use chain_weaver.Dict.{update}
use chain_weaver.Value.{Context}
use chain_weaver.Tools.{Exc}
use chain_weaver.Executor.Types.{Error}
use chain_weaver.Dag.Topology.{ConditionalEdge, DagStep}

-- `str | PredicateSyntaxError | None`, or another exception, such as the TypeError of a comparison,
-- which is not caught.
pub data Selected : Type 0 where
  target : String → Selected
  no_branch : Selected
  bad_predicate : Error → Selected
  unevaluated : Exc → Selected

-- What `evaluate_predicate` comes to: a truth value, a PredicateSyntaxError or another exception.
pub data Evaluation : Type 0 where
  holds : Bool → Evaluation
  syntax_error : Error → Evaluation
  raises : Exc → Evaluation

abbrev pub Evaluator : Type 0
Evaluator = String → Context → Evaluation

-- One edge, by what its predicate comes to, given what the later edges come to.
abbrev pub routed : String → Evaluation → Selected → Selected
routed step_id (raises e) later = unevaluated e
routed step_id (syntax_error e) later = bad_predicate e
routed step_id (holds true) later = target step_id
routed step_id (holds false) later = later

abbrev pub otherwise : Option String → Selected
otherwise none = no_branch
otherwise (some step_id) = target step_id

-- `for edge in step.branches`, then `default_next`.
unfoldable pub first_match : Evaluator → Context → Option String → List ConditionalEdge → Selected
first_match evaluate context default [] = otherwise default
first_match evaluate context default (edge ∷ edges) =
    routed edge.target_step_id (evaluate edge.predicate context)
      (first_match evaluate context default edges)

-- `step_outputs`, where there are any.
abbrev pub with_outputs : Context → Option Context → Context
with_outputs context none = context
with_outputs context (some outputs) = update context outputs

unfoldable pub select_branch : Evaluator → DagStep → Context → Context → Option Context → Selected
unfolding first_match
select_branch evaluate step context level_outputs step_outputs =
    first_match evaluate (with_outputs (update context level_outputs) step_outputs)
      step.default_next step.branches
